-- ===== src/Engine/Reused.antt =====
-- The records that Worker_Init (Engine/src/delta/core/Worker.cpp) makes for the new threads, and the first
-- Engine::Update (Engine/src/delta/core/engine.cpp).
use project_delta.Build.{Build}
use project_delta.Engine.Session.{Session}
use project_delta.Win32.{Win32}

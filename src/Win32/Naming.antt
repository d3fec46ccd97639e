-- ===== src/Win32/Naming.antt =====
-- Thread_SetName of Engine/src/delta/platform/os_win32.cpp: the exception by which a debugger is told a
-- thread's name. Of the words that the system is told to read, six, the structure has three; the others
-- are what lies behind it on the stack. The handler's filter is EXCEPTION_CONTINUE_EXECUTION, so that the
-- function goes on and returns.
use project_delta.Prelude.{ℕ, zero, suc, ◌+◌, ◌-◌, ◌/◌, List, [], ◌∷◌}
use project_delta.Win32.{Win32}
use project_delta.Win32.Threads.{Process, thread_get_id}

-- sizeof(THREADNAME_INFO): the DWORD before the name's address has four bytes of padding behind it.
abbrev sizeof_threadname_info : ℕ
sizeof_threadname_info = 4 + 4 + 8 + 4 + 4

abbrev sizeof_dword : ℕ
sizeof_dword = 4

-- sizeof(ULONG_PTR)
abbrev sizeof_word : ℕ
sizeof_word = 8

module _ (sys : Win32) where
  -- So many words behind the structure, from a number on.
  unfoldable pub further : ℕ → ℕ → Process sys → List ℕ
  further zero i p = []
  further (suc n) i p = sys.stack_word p.world i ∷ further n (i + 1) p

  unfoldable pub thread_set_name : ℕ → List ℕ → Process sys → Process sys
  thread_set_name handle name p = record p {
    world = sys.raise_exception p.world (record {
      code = 1080890248;
      flags = 0;
      number_of_arguments = sizeof_threadname_info / sizeof_dword;
      arguments = record {
        type = 4096;
        name = name;
        thread_id = thread_get_id sys handle p;
        flags = 0;
      };
      behind =
          further (sizeof_threadname_info / sizeof_dword - sizeof_threadname_info / sizeof_word) 0
            p;
    });
  }

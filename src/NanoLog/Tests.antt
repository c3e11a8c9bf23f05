-- ===== src/NanoLog/Tests.antt =====
-- A line of the log with a text, a number and an empty text, and one that outgrows its buffer.
use demo_code.Prelude.{
  true, ℕ, zero, suc, ◌+◌, ◌/◌, ◌%◌, ◌^◌, ◌<◌, List, [], ◌∷◌, ◌++◌, length, Option, none, some,
  ◌>>=◌, ◌≡◌, refl, arith,
}
use demo_code.Prelude.Sorted.{All}
use demo_code.NanoLog.{
  LogLine, Header, Arg, number, c_str, Item, value, char, int16, uint32, new_line, encode_all,
  encode, write, resize_buffer,
}
use demo_code.NanoLog.Printing.{stringify, get_level, to_string, decode}
use demo_code.NanoLog.Worker.{
  LogQueue, Event, initializes, releases, joins, pushes, works, new_logger, release, run,
}
use demo_code.NanoLog.Worker.Exit.{written_or_passed, run-exit}
use demo_code.NanoLog.Worker.Order.{all_lines, accepted, run-all_lines}
use demo_code.NanoLog.Args.{args_bytes, args_items, IsArg}
use demo_code.NanoLog.RoundTrip.{IsHeader, encode_all-stringify, encode_all-get_level}

abbrev header : Header
header = record {
  timestamp = 1500000000000;
  process_id = 17;
  thread_id = 140000000000000;
  file = 94000000000000;
  func = 94000000000100;
  line_no = 12;
  level = 7;
}

abbrev args : List Arg
args =
    c_str (some (b'x' ∷ b'=' ∷ []))
    ∷ number int16 65535
    ∷ c_str (some [])
    ∷ c_str none
    ∷ number uint32 70000
    ∷ []

header-IsHeader : IsHeader header
unfolding demo_code.NanoLog.Words.words
header-IsHeader = record {
  timestamp = omega arith;
  process_id = omega arith;
  thread_id = omega arith;
  file = omega arith;
  func = omega arith;
  line_no = omega arith;
  level = omega arith;
}

args-IsArg : All IsArg args
unfolding IsArg demo_code.NanoLog.Words.words demo_code.NanoLog.size_of
args-IsArg = grind arith

args_size : 45 + length (args_bytes args) < 2 ^ 63
unfolding args_bytes demo_code.NanoLog.le_bytes demo_code.NanoLog.size_of
args_size = omega arith

printed :
    (do start ← new_line header; s ← encode_all args start; stringify s)
    ≡ some (header, "INFO", char b'x' ∷ char b'=' ∷ value int16 65535 ∷ value uint32 70000 ∷ [])
unfolding new_line encode_all stringify decode
printed = refl

unfoldable repeated : ℕ → List ℕ
repeated zero = []
repeated (suc n) = b'x' ∷ repeated n

-- The line that outgrows the buffer of the stack goes to the heap.
size_after : ℕ → Option ℕ
unfolding new_line encode_all repeated
size_after n = do
  start ← new_line header
  s ← encode_all (c_str (some (repeated n)) ∷ []) start
  some s.buffer_size

stays : size_after 100 ≡ some 224
unfolding size_after
stays = refl

grows : size_after 200 ≡ some 512
unfolding size_after
grows = refl

encode_all-stringify_example :
    (s : LogLine) × ((do start ← new_line header; encode_all args start) ≡ some s)
    × (stringify s ≡ some (header, to_string 7, args_items args))
encode_all-stringify_example = encode_all-stringify header args header-IsHeader args-IsArg args_size

encode_all-get_level_example :
    (s : LogLine) × ((do start ← new_line header; encode_all args start) ≡ some s)
    × (get_level s ≡ some (94000000000100 / 2 ^ 32 % 256))
encode_all-get_level_example = encode_all-get_level header args args_size

-- The queue as a list.
unfoldable list_dequeue : List ℕ → Option (ℕ × List ℕ)
list_dequeue [] = none
list_dequeue (x ∷ xs) = some (x, xs)

list_dequeue_first :
    (q : List ℕ) (x : ℕ) (rest : List ℕ) → list_dequeue q ≡ some (x, rest) → q ≡ x ∷ rest
unfolding list_dequeue
list_dequeue_first [] x rest e = cc
list_dequeue_first (y ∷ q) x rest e = ground (arith, e)

unfoldable list_queue : LogQueue ℕ
list_queue = record {
  Carrier = List ℕ;
  empty_queue = [];
  enqueue = λ x q. q ++ x ∷ [];
  try_dequeue = list_dequeue;
  items = λ q. q;
  items-empty_queue = refl;
  items-enqueue = λ x q. refl;
  items-try_dequeue = list_dequeue_first;
}

-- A line is pushed too early, two are pushed in time, one is written, and the other is about to be.
abbrev events : List (Event ℕ list_queue)
events = pushes 1 ∷ initializes ∷ pushes 2 ∷ works ∷ pushes 3 ∷ works ∷ works ∷ works ∷ works ∷ []

-- The logger is released, the thread ends, and the logger is initialized for another line.
abbrev later : List (Event ℕ list_queue)
later = releases ∷ works ∷ works ∷ joins ∷ initializes ∷ pushes 4 ∷ works ∷ works ∷ works ∷ []

first_line : (run ℕ list_queue events (new_logger ℕ list_queue)).written ≡ 2 ∷ []
unfolding list_queue list_dequeue new_logger run
first_line = refl

run-all_lines_example :
    all_lines ℕ list_queue (run ℕ list_queue events (new_logger ℕ list_queue))
    ≡ all_lines ℕ list_queue (new_logger ℕ list_queue)
      ++ accepted ℕ list_queue events (new_logger ℕ list_queue)
unfolding list_queue list_dequeue new_logger run
run-all_lines_example = run-all_lines ℕ list_queue events (new_logger ℕ list_queue) refl

-- The line 3 has passed the test of `is_exit_` and is written after `Release` has begun, and 4 is not.
last_line :
    (run ℕ list_queue later
      (release ℕ list_queue (run ℕ list_queue events (new_logger ℕ list_queue)))).written
    ≡ 2 ∷ 3 ∷ []
unfolding list_queue list_dequeue new_logger run release
last_line = refl

run-exit_example :
    ((run ℕ list_queue later
        (release ℕ list_queue (run ℕ list_queue events (new_logger ℕ list_queue)))).is_exit
      ≡ true)
    × (written_or_passed ℕ list_queue (
          run ℕ list_queue later
            (release ℕ list_queue (run ℕ list_queue events (new_logger ℕ list_queue))))
        ≡ written_or_passed ℕ list_queue
            (release ℕ list_queue (run ℕ list_queue events (new_logger ℕ list_queue))))
unfolding list_queue list_dequeue new_logger run release
run-exit_example =
    run-exit ℕ list_queue later
      (release ℕ list_queue (run ℕ list_queue events (new_logger ℕ list_queue))) refl

-- ===== src/LockFree/Tests.antt =====
-- A queue that a failed exchange has stopped, and a call that comes later.
use demo_code.Prelude.{true, false, ◌⊎◌, none, some, refl}
use demo_code.LockFree.{
  Queue, idle, adding, read_tail, update, Config, here, next, make_node, load_tail, link_fails,
}
use demo_code.LockFree.Laws.{IsStuck, Deletes, Run-IsStuck}

abbrev stuck : Config
stuck = record {
  queue = record {
    next = update (λ a. none) 0 (some 1);
    item = update (λ a. none) 1 (some 7);
    head = some 0;
    tail = 0;
    size = 1;
    live = update (update (λ a. false) 0 true) 1 true;
  };
  place = λ i. idle;
}

stuck-IsStuck : IsStuck 0 1 stuck
unfolding update
stuck-IsStuck = record {
  behind = record { tail = refl; more = refl; there = refl };
  past = λ i n e. absurd (cc);
}

-- Another call of `EnQueue`, which finds that the tail has a successor and tries again.
abbrev with_node : Queue
with_node = record stuck.queue {
  item = update stuck.queue.item 2 (some 8);
  next = update stuck.queue.next 2 none;
  live = update stuck.queue.live 2 true;
}

abbrev again : Config
again = record {
  queue = with_node;
  place = update (update (update stuck.place 3 (adding 2)) 3 (read_tail 2 0)) 3 (adding 2);
}

Run-IsStuck_example : IsStuck 0 1 again ⊎ Deletes 0 stuck again
unfolding update
Run-IsStuck_example = Run-IsStuck 0 1 stuck-IsStuck (
    next 3 with_node (adding 2)
      (next 3 with_node (read_tail 2 0)
        (next 3 with_node (adding 2) here (make_node stuck.queue 2 (some 8) refl))
        (load_tail with_node 2))
      (link_fails with_node 2 0 refl))

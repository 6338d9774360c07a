-- ===== src/IoManager/Tests.antt =====
-- Runs of the calls, and the theorems at concrete inputs.
use cor_reactor.Base.{
  ◌≡◌, refl, ◌⊎◌, [], ◌∷◌, none, some, Bool, true, false, get_elem?, ok, fail, assertion, arith,
  ◌>>=◌,
}
use cor_reactor.IoManager.{
  write, EpollCtl, EventContext, FdContext, run_callback, IoManager, Caller, contains,
  without_event, trigger_event, get_context, task_of, is_none, bits,
}
use cor_reactor.IoManager.Calls.{add_event, cancel_event, cancel_event_of, cancel_all, fire}
use cor_reactor.IoManager.Counting.{IsValid}
use cor_reactor.IoManager.Removing.{Cancelled, cancel_event_lem, cancel_all_lem}
use cor_reactor.IoManager.Adding.{add_event-cancel_event}

running : Unit {0}
unfolding contains without_event trigger_event get_context task_of cancel_event cancel_event_of fire
    bits
running = tt

abbrev accept : EpollCtl
accept op fd mask = 0

-- Descriptor 1 waits to be writable, with callback 5 on scheduler 3.
abbrev unused : EventContext
unused = record { scheduler = none; fiber = none; cb = none }

abbrev idle_context : FdContext
idle_context = record {
  fd = 0;
  read_context = unused;
  write_context = unused;
  events = record { reads = false; writes = false };
}

abbrev waiting_context : FdContext
waiting_context = record {
  fd = 1;
  read_context = unused;
  write_context = record { scheduler = some 3; fiber = none; cb = some 5 };
  events = record { reads = false; writes = true };
}

abbrev one_waits : IoManager
one_waits = record { contexts = idle_context ∷ waiting_context ∷ []; pending = 1; scheduled = [] }

one_waits-IsValid : IsValid one_waits
one_waits-IsValid = record {
  counted = refl;
  bounded = omega arith;
  ready = (
    record { reader = λ h. cc h; writer = λ h. cc h },
    (record { reader = λ h. cc h; writer = λ h. (3, refl) }, tt),
  );
}

cancel_runs :
    (cancel_event one_waits 1 write accept >>= λ r. ok r.0.scheduled)
    ≡ ok ((3, run_callback 5) ∷ [])
unfolding running
cancel_runs = refl

abbrev caller : Caller
caller = record { scheduler = some 3; fiber = 8; executing = true }

cancel_event_lem_example :
    (r : IoManager × Bool) × (cancel_event one_waits 1 write accept ≡ ok r)
    × Cancelled one_waits 1 write r
    × IsValid r.0
cancel_event_lem_example = cancel_event_lem one_waits one_waits-IsValid 1 accept write

cancel_all_lem_example :
    (r : IoManager × Bool) × (cancel_all one_waits 1 accept ≡ ok r)
    × IsValid r.0
    × ((r ≡ (one_waits, false))
        ⊎ ((y : FdContext) × (get_elem? r.0.contexts 1 ≡ some y)
            × (is_none y.events ≡ true)
            × (r.1 ≡ true)))
cancel_all_lem_example = cancel_all_lem one_waits one_waits-IsValid 1 accept

write_waits : contains waiting_context.events write ≡ true
unfolding running
write_waits = refl

add_event-cancel_event_example :
    (n : IoManager) × (cancel_event one_waits 1 write accept ≡ ok (n, true))
    × (add_event n 1 write caller (some 6) accept ≡ fail assertion)
add_event-cancel_event_example =
    add_event-cancel_event one_waits 1 waiting_context write caller (some 6) accept
      one_waits-IsValid refl (write_waits) (λ op fd mask. refl)

-- Descriptor 0 waits to be readable, with fiber 4 on scheduler 3.
abbrev reading_context : FdContext
reading_context = record {
  fd = 0;
  read_context = record { scheduler = some 3; fiber = some 4; cb = none };
  write_context = unused;
  events = record { reads = true; writes = false };
}

abbrev one_reads : IoManager
one_reads = record { contexts = reading_context ∷ []; pending = 1; scheduled = [] }

one_reads-IsValid : IsValid one_reads
one_reads-IsValid = record {
  counted = refl;
  bounded = omega arith;
  ready = (record { reader = λ h. (3, refl); writer = λ h. cc h }, tt);
}

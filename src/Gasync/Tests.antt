-- ===== src/Gasync/Tests.antt =====
-- A table with one watched descriptor, and a table of timers with one running.
use serialusb.Common.{
  arith, ap, zero, suc, get_elem?, ℕ, ◌+◌, ◌≡◌, refl, List, ◌∷◌, none, some, true, false, take,
  replicate, All-replicate,
}
use serialusb.Common.Int.{pos}
use serialusb.Gasync.Poll.{
  is_watched, Poll, Source, empty_source, initial_poll, gpoll_register_fd, gpoll_remove_fd,
  fill_fds,
}
use serialusb.Gasync.Poll.Watching.{
  IsPoll, IsCallable, Lists, Removed, gpoll_register_fd-IsPoll, gpoll_remove_fd-IsPoll,
  fill_fds_complete,
}
use serialusb.Gasync.Timer.{Timer, System, free_timer, get_slot, gtimer_start, gtimer_close}
use serialusb.Gasync.Timer.Slots.{Started, gtimer_start-Started, gtimer_close-get_slot}

empty-IsCallable : IsCallable {Cb = ℕ} empty_source
empty-IsCallable = record {
  reads = λ e. absurd cc;
  writes = λ e. absurd cc;
  closes = λ e. absurd cc;
}

get_elem?-zeros :
    (n i : ℕ) (s : Source ℕ) → get_elem? (replicate n empty_source) i ≡ some s → empty_source ≡ s
get_elem?-zeros zero i s e = absurd cc
get_elem?-zeros (suc n) zero s e = cc
get_elem?-zeros (suc n) (suc i) s e = get_elem?-zeros n i s e

unwatched : (s : Source ℕ) → empty_source ≡ s → is_watched s ≡ true → ⊥
unwatched s e w = let f = ap is_watched e in absurd cc

initial-IsPoll : IsPoll (initial_poll ℕ)
initial-IsPoll = record {
  size = refl;
  bound = omega arith;
  reach = λ i s e w. absurd (unwatched s (get_elem?-zeros 1024 i s e) w);
  callable = All-replicate IsCallable 1024 empty_source empty-IsCallable;
}

-- Descriptor 3 is watched for data; the callbacks are numbers.
abbrev one_source : Poll ℕ
one_source = (gpoll_register_fd (pos 3) (pos 0) (some 7) none (some 8) (initial_poll ℕ)).0

gpoll_register_fd-IsPoll_example :
    IsPoll (gpoll_register_fd (pos 3) (pos 0) (some 7) none (some 8) (initial_poll ℕ)).0
gpoll_register_fd-IsPoll_example =
    gpoll_register_fd-IsPoll (pos 3) (pos 0) (some 7) none (some 8) (initial_poll ℕ) initial-IsPoll

one_source-IsPoll : IsPoll one_source
one_source-IsPoll =
    gpoll_register_fd-IsPoll (pos 3) (pos 0) (some 7) none (some 8) (initial_poll ℕ) initial-IsPoll

gpoll_remove_fd-IsPoll_example : Removed (pos 3) one_source (gpoll_remove_fd (pos 3) one_source)
gpoll_remove_fd-IsPoll_example = gpoll_remove_fd-IsPoll (pos 3) one_source one_source-IsPoll

abbrev watched : Source ℕ
watched = record empty_source { fp_read = some 7; fp_close = some 8; poll_in = true }

watched_there : get_elem? one_source.sources 3 ≡ some watched
unfolding gpoll_register_fd
watched_there = refl

fill_fds_complete_example :
    Lists (fill_fds 0 (take (one_source.max_source + 1) one_source.sources)) (3, true, false)
fill_fds_complete_example =
    fill_fds_complete one_source 3 watched one_source-IsPoll watched_there refl

-- Every call of the system succeeds, and the descriptors are 5.
abbrev calls : System ℕ
calls = record {
  W = ℕ;
  timerfd_create = λ w. (w, pos 5);
  timerfd_settime = λ fd sec nsec w. (w, pos 0);
  close = λ fd w. w;
  read = λ fd w. (w, pos 8);
  register = λ fd slot w. (w, pos 0);
  remove_fd = λ fd w. w;
  call = λ cb user w. (w, pos 1);
}

-- The timer 0 runs.
abbrev timers : List (Timer ℕ)
timers =
    record { fd = pos 5; user = pos 0; fp_read = some 7; fp_close = some 8 }
    ∷ replicate 31 free_timer

gtimer_start-Started_example :
    Started calls (pos 0) 10000 7 8 timers 0 (gtimer_start calls (pos 0) 10000 7 8 timers 0)
gtimer_start-Started_example = gtimer_start-Started calls (pos 0) 10000 7 8 timers 0

gtimer_close-get_slot_example :
    get_slot 0 (gtimer_close calls timers (pos 0) 0).0 ≡ get_slot 0 timers
gtimer_close-get_slot_example = gtimer_close-get_slot calls timers (pos 0) 0

-- ===== src/Gasync/Poll.antt =====
-- poll/linux/gpoll.c of sw/lib/gasync: the table of the file descriptors that are watched, and the loop
-- that calls their callbacks.
pub mod Watching
use serialusb.Common.{
  ℕ, zero, suc, ◌+◌, Bool, true, false, ◌||◌, Option, none, some, List, [], ◌∷◌, if◌then◌else◌, ltb,
  leb, get_or, set, replicate, take, length, ◌>>=◌,
}
use serialusb.Common.Int.{ℤ, pos, negsuc, minus_one, is_nonzero}

abbrev pub max_sources : ℕ
max_sources = 1024

-- An entry of `sources`; `event` is the two bits POLLIN and POLLOUT, and a callback may be NULL.
pub record Source (Cb : Type 0) : Type 0 where
  pub user : ℤ
  pub fp_read : Option Cb
  pub fp_write : Option Cb
  pub fp_close : Option Cb
  pub poll_in : Bool
  pub poll_out : Bool

abbrev pub empty_source : {Cb : Type 0} → Source Cb
empty_source = record {
  user = pos 0;
  fp_read = none;
  fp_write = none;
  fp_close = none;
  poll_in = false;
  poll_out = false;
}

pub record Poll (Cb : Type 0) : Type 0 where
  pub sources : List (Source Cb)
  pub max_source : ℕ

abbrev pub initial_poll : (Cb : Type 0) → Poll Cb
initial_poll Cb = record { sources = replicate 1024 empty_source; max_source = 0 }

-- What `poll` reports of a descriptor: an error, hang-up or invalid descriptor; data; room for data.
pub record Revents : Type 0 where
  pub broken : Bool
  pub readable : Bool
  pub writable : Bool

module _ {Cb : Type 0} where
  abbrev pub source_at : Poll Cb → ℕ → Source Cb
  source_at p fd = get_or p.sources fd empty_source

  -- The entry with the callbacks that are given, over what it held.
  abbrev pub with_read : Option Cb → Source Cb → Source Cb
  with_read none s = s
  with_read (some cb) s = record s { poll_in = true; fp_read = some cb }

  abbrev pub with_write : Option Cb → Source Cb → Source Cb
  with_write none s = s
  with_write (some cb) s = record s { poll_out = true; fp_write = some cb }

  abbrev pub is_null : Option Cb → Bool
  is_null none = true
  is_null (some cb) = false

  abbrev pub watch : ℕ → ℤ → Option Cb → Option Cb → Cb → Poll Cb → Poll Cb
  watch fd user fp_read fp_write fp_close p = record {
    sources =
        set p.sources fd
          (record (with_write fp_write
            (with_read fp_read (record (source_at p fd) { user = user }))) {
              fp_close = some fp_close;
            });
    max_source = if ltb p.max_source fd then fd else p.max_source;
  }

  unfoldable pub gpoll_register_fd :
      ℤ → ℤ → Option Cb → Option Cb → Option Cb → Poll Cb → Poll Cb × ℤ
  gpoll_register_fd fd user fp_read fp_write none p = (p, minus_one)
  gpoll_register_fd (negsuc n) user fp_read fp_write (some fp_close) p = (p, minus_one)
  gpoll_register_fd (pos fd) user none none (some fp_close) p = (p, minus_one)
  gpoll_register_fd (pos fd) user none (some w) (some fp_close) p =
      if leb max_sources fd then (p, minus_one) else (watch fd user none (some w) fp_close p, pos 0)
  gpoll_register_fd (pos fd) user (some r) fp_write (some fp_close) p =
      if leb max_sources fd
      then (p, minus_one)
      else (watch fd user (some r) fp_write fp_close p, pos 0)

  -- The entry is cleared; `none` is a write past the end of `sources`.
  unfoldable pub gpoll_remove_fd : ℤ → Poll Cb → Option (Poll Cb)
  gpoll_remove_fd (negsuc n) p = some p
  gpoll_remove_fd (pos fd) p =
      if ltb fd max_sources
      then (if ltb fd (length p.sources)
          then some (record p { sources = set p.sources fd empty_source })
          else none)
      else some p

  abbrev pub is_watched : Source Cb → Bool
  is_watched s = s.poll_in || s.poll_out

  -- The watched descriptors from `i` on, with their events.
  unfoldable pub fill_fds : ℕ → List (Source Cb) → List (ℕ × Bool × Bool)
  fill_fds i [] = []
  fill_fds i (s ∷ ss) =
      let later = fill_fds (i + 1) ss in
      if is_watched s then (i, s.poll_in, s.poll_out) ∷ later else later

-- A callback works on the table and on the state of the rest of the program.
module _ {Cb W : Type 0} (call : Cb → ℤ → Poll Cb × W → Poll Cb × W × ℤ) where
  -- A call of a callback, `none` if it is NULL. The last result is whether it returned non-zero.
  unfoldable pub invoke : Option Cb → ℤ → Poll Cb × W → Option (Poll Cb × W × Bool)
  invoke none user s = none
  invoke (some cb) user s = let (p, w, res) = call cb user s in some (p, w, is_nonzero res)

  -- The two `if`s for data: a non-zero result ends the loop.
  unfoldable pub ready : ℕ → Revents → Poll Cb × W → Option (Poll Cb × W × Bool)
  unfolding invoke
  ready fd r s =
      let written = λ (t : Poll Cb × W).
        if r.writable
        then invoke (source_at t.0 fd).fp_write (source_at t.0 fd).user t
        else some (t.0, t.1, false) in
      if r.readable
      then (invoke (source_at s.0 fd).fp_read (source_at s.0 fd).user s >>= λ (p, w, stop).
          if stop then some (p, w, true) else written (p, w))
      else written s

  unfoldable pub serve : ℕ → Revents → Poll Cb × W → Option (Poll Cb × W × Bool)
  unfolding ready gpoll_remove_fd
  serve fd r s =
      if r.broken
      then (invoke (source_at s.0 fd).fp_close (source_at s.0 fd).user s >>= λ (p, w, stop).
          (gpoll_remove_fd (pos fd) p >>= λ p'. some (p', w, stop)))
      else ready fd r s

  -- The `for` over the descriptors: whether a callback has ended it.
  unfoldable pub serve_all : List (ℕ × Revents) → Poll Cb × W → Option (Poll Cb × W × Bool)
  unfolding serve
  serve_all [] s = some (s.0, s.1, false)
  serve_all ((fd, r) ∷ rs) s = serve fd r s >>= λ (p, w, stop).
      (let rest = serve_all rs (p, w) in if stop then some (p, w, true) else rest)

  -- The `while (1)`, on fuel: `none` is too little fuel, or a call through NULL. `poll` is the system's:
  -- the descriptors with what it reports of them, none of them if it fails.
  unfoldable pub gpoll :
      ℕ → (List (ℕ × Bool × Bool) → W → List (ℕ × Revents) × W) → Poll Cb × W → Option (Poll Cb × W)
  unfolding serve_all fill_fds
  gpoll zero poll s = none
  gpoll (suc fuel) poll s =
      let (events, w) = poll (fill_fds 0 (take (s.0.max_source + 1) s.0.sources)) s.1 in
      serve_all events (s.0, w) >>= λ (p, w', stop).
      (let again = gpoll fuel poll (p, w') in if stop then some (p, w') else again)

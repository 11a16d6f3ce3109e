-- ===== src/Gasync/Poll/Watching.antt =====
-- The table of watched descriptors: what a sound one is, and what registrations, removals and the
-- list for `poll` make of it.
use serialusb.Common.{
  ℕ, zero, suc, ◌+◌, ◌≤◌, ◌<◌, ◌≡◌, ◌≢◌, refl, sym, ap, ◌∙◌, ap₂, Bool, true, false, inl, inr,
  Option, none, some, List, [], ◌∷◌, arith, Bool-cases, ltb, leb, ◌==◌, length, get_elem?, set,
  take, All, All-set, All-get, length-set, get_elem?-set_self, get_elem?-set_ne,
  get_elem?-eq-get_or, get_or, get_or-set_self,
}
use serialusb.Common.Int.{ℤ, pos, negsuc, to_nat}
use serialusb.Gasync.Poll.{
  Source, Poll, max_sources, empty_source, source_at, is_null, is_watched, watch, with_read,
  with_write, gpoll_register_fd, gpoll_remove_fd, fill_fds,
}

-- An event that is watched for has a callback.
pub record IsCallable {Cb : Type 0} (s : Source Cb) : Type 0 where
  pub reads : s.poll_in ≡ true → is_null s.fp_read ≡ false
  pub writes : s.poll_out ≡ true → is_null s.fp_write ≡ false
  pub closes : is_watched s ≡ true → is_null s.fp_close ≡ false

pub record IsPoll {Cb : Type 0} (p : Poll Cb) : Type 0 where
  pub size : length p.sources ≡ max_sources
  pub bound : p.max_source < max_sources
  pub reach :
      (fd : ℕ) (s : Source Cb)
      → get_elem? p.sources fd ≡ some s
      → is_watched s ≡ true
      → fd ≤ p.max_source
  pub callable : All IsCallable p.sources

get_or-past {ℓ} : {A : Type ℓ} (xs : List A) (i : ℕ) (d : A) → length xs ≤ i → get_or xs i d ≡ d
get_or-past [] i d h = refl
get_or-past (x ∷ xs) zero d h = absurd (omega arith)
get_or-past (x ∷ xs) (suc i) d h = get_or-past xs i d (omega arith)

module _ {Cb : Type 0} where
  -- The entry after a registration.
  abbrev entry : ℤ → Option Cb → Option Cb → Cb → Source Cb → Source Cb
  entry user fp_read fp_write fp_close s =
      record (with_write fp_write (with_read fp_read (record s { user = user }))) {
        fp_close = some fp_close;
      }

  entry-IsCallable :
      (user : ℤ) (fp_read fp_write : Option Cb) (fp_close : Cb) (s : Source Cb)
      → IsCallable s
      → IsCallable (entry user fp_read fp_write fp_close s)
  entry-IsCallable user none none c s v = record {
    reads = v.reads;
    writes = v.writes;
    closes = λ e. refl;
  }
  entry-IsCallable user none (some w) c s v = record {
    reads = v.reads;
    writes = λ e. refl;
    closes = λ e. refl;
  }
  entry-IsCallable user (some r) none c s v = record {
    reads = λ e. refl;
    writes = v.writes;
    closes = λ e. refl;
  }
  entry-IsCallable user (some r) (some w) c s v = record {
    reads = λ e. refl;
    writes = λ e. refl;
    closes = λ e. refl;
  }

  watch-IsPoll :
      (fd : ℕ) (user : ℤ) (fp_read fp_write : Option Cb) (fp_close : Cb) (p : Poll Cb)
      → fd < max_sources
      → IsPoll p
      → IsPoll (watch fd user fp_read fp_write fp_close p)
  watch-IsPoll fd user fp_read fp_write fp_close p h v =
      let new = entry user fp_read fp_write fp_close (source_at p fd) in
      let found = get_elem?-eq-get_or p.sources fd empty_source (omega (arith, v.size)) in
      record {
        size = length-set p.sources fd new ∙ v.size;
        bound = ground (arith, v.bound);
        reach = λ i s e w. elim (Bool-cases (fd == i)) [
          | inl here ↦ ground arith
          | inr elsewhere ↦
              let ne : fd ≢ i = ground arith in
              let old = v.reach i s (sym (get_elem?-set_ne p.sources fd i new ne) ∙ e) w in
              ground (arith, old)
        ];
        callable = All-set IsCallable p.sources fd new v.callable (
            entry-IsCallable user fp_read fp_write fp_close (source_at p fd)
              (All-get IsCallable p.sources fd (source_at p fd) v.callable found));
      }

  -- A registration, accepted or refused, keeps the table sound: every event has its callback, and no
  -- watched descriptor lies past `max_source`.
  pub gpoll_register_fd-IsPoll :
      (fd user : ℤ) (fp_read fp_write fp_close : Option Cb) (p : Poll Cb)
      → IsPoll p
      → IsPoll (gpoll_register_fd fd user fp_read fp_write fp_close p).0
  unfolding gpoll_register_fd
  gpoll_register_fd-IsPoll fd user fp_read fp_write none p v = v
  gpoll_register_fd-IsPoll (negsuc n) user fp_read fp_write (some c) p v = v
  gpoll_register_fd-IsPoll (pos fd) user none none (some c) p v = v
  gpoll_register_fd-IsPoll (pos fd) user none (some w) (some c) p v =
      elim (Bool-cases (leb max_sources fd)) [
        | inl bad ↦ rw bad v
        | inr good ↦ rw good (watch-IsPoll fd user none (some w) c p (ground arith) v)
      ]
  gpoll_register_fd-IsPoll (pos fd) user (some r) fp_write (some c) p v =
      elim (Bool-cases (leb max_sources fd)) [
        | inl bad ↦ rw bad v
        | inr good ↦ rw good (watch-IsPoll fd user (some r) fp_write c p (ground arith) v)
      ]

  empty_not_watched : (s : Source Cb) → some empty_source ≡ some s → is_watched s ≡ true → ⊥
  empty_not_watched s e w = let same : empty_source ≡ s = cc in let f = ap is_watched same in cc

  cleared-IsPoll :
      (fd : ℕ) (p : Poll Cb)
      → fd < max_sources
      → IsPoll p
      → IsPoll (record p { sources = set p.sources fd empty_source })
  cleared-IsPoll fd p h v = record {
    size = length-set p.sources fd empty_source ∙ v.size;
    bound = v.bound;
    reach = λ i s e w. elim (Bool-cases (fd == i)) [
      | inl here ↦
          let same : fd ≡ i = ground arith in
          let self = get_elem?-set_self p.sources fd empty_source (ground (arith, v.size)) in
          let h : some empty_source ≡ some s =
            sym self ∙ ap (get_elem? (set p.sources fd empty_source)) same ∙ e in
          absurd (empty_not_watched s h w)
      | inr elsewhere ↦
          let ne : fd ≢ i = ground arith in
          v.reach i s (sym (get_elem?-set_ne p.sources fd i empty_source ne) ∙ e) w
    ];
    callable =
        All-set IsCallable p.sources fd empty_source v.callable
          (record { reads = λ e. absurd cc; writes = λ e. absurd cc; closes = λ e. absurd cc });
  }

  -- The table after a removal: sound, with the entry of the descriptor empty and the others as before.
  pub record Removed (fd : ℤ) (p : Poll Cb) (out : Option (Poll Cb)) : Type 0 where
    pub poll : Poll Cb
    pub returns : out ≡ some poll
    pub sound : IsPoll poll
    pub gone : (i : ℕ) → fd ≡ pos i → source_at poll i ≡ empty_source
    pub others : (i : ℕ) → fd ≢ pos i → get_elem? poll.sources i ≡ get_elem? p.sources i

  past_end : (p : Poll Cb) (i : ℕ) → IsPoll p → max_sources ≤ i → source_at p i ≡ empty_source
  past_end p i v h = get_or-past p.sources i empty_source (omega (arith, v.size))

  -- A removal from a sound table, of any number, stays within the table and keeps it sound: the entry
  -- of the descriptor is empty afterwards, and every other entry is as it was.
  pub gpoll_remove_fd-IsPoll :
      (fd : ℤ) (p : Poll Cb) → IsPoll p → Removed fd p (gpoll_remove_fd fd p)
  unfolding gpoll_remove_fd
  gpoll_remove_fd-IsPoll (negsuc n) p v = record {
    poll = p;
    returns = refl;
    sound = v;
    gone = λ i e. absurd cc;
    others = λ i e. refl;
  }
  gpoll_remove_fd-IsPoll (pos fd) p v = elim (Bool-cases (ltb fd max_sources)) [
    | inr bad ↦ rw bad (record {
      poll = p;
      returns = refl;
      sound = v;
      gone = λ i e. past_end p i v (let same = ap to_nat e in ground arith);
      others = λ i e. refl;
    })
    | inl good ↦
        let inside_table : ltb fd (length p.sources) ≡ true = ground (arith, v.size) in
        let below : fd < length p.sources = ground arith in
        rw (good, inside_table)
          (record {
            poll = record p { sources = set p.sources fd empty_source };
            returns = refl;
            sound = cleared-IsPoll fd p (ground arith) v;
            gone = λ i e.
                let same : fd ≡ i = ap to_nat e in
                ap (get_or (set p.sources fd empty_source) i) refl
                ∙ rw (← same) (get_or-set_self p.sources fd empty_source empty_source below);
            others = λ i e. get_elem?-set_ne p.sources fd i empty_source (λ same. e (ap pos same));
          })
  ]

get_elem?-take {ℓ} :
    {A : Type ℓ} (xs : List A) (n i : ℕ) (a : A)
    → get_elem? xs i ≡ some a
    → i < n
    → get_elem? (take n xs) i ≡ some a
get_elem?-take [] n i a e h = cc
get_elem?-take (x ∷ xs) zero i a e h = absurd (omega arith)
get_elem?-take (x ∷ xs) (suc n) zero a e h = e
get_elem?-take (x ∷ xs) (suc n) (suc i) a e h = get_elem?-take xs n i a e (omega arith)

-- An entry of the list that `poll` is given.
abbrev pub Lists : List (ℕ × Bool × Bool) → ℕ × Bool × Bool → Type 0
Lists fds entry = (k : ℕ) × (get_elem? fds k ≡ some entry)

fill_fds-Lists :
    {Cb : Type 0} (ss : List (Source Cb)) (i j n : ℕ) (s : Source Cb)
    → n ≡ i + j
    → get_elem? ss j ≡ some s
    → is_watched s ≡ true
    → Lists (fill_fds i ss) (n, s.poll_in, s.poll_out)
unfolding fill_fds
fill_fds-Lists [] i j n s e h w = absurd cc
fill_fds-Lists {Cb = Cb} (x ∷ ss) i zero n s e h w =
    let same : x ≡ s = cc in
    let watched : is_watched x ≡ true = ap is_watched same ∙ w in
    let at : i ≡ n = omega arith in
    rw watched (0, ap some (ap₂ (λ m (t : Source Cb). (m, t.poll_in, t.poll_out)) at same))
fill_fds-Lists (x ∷ ss) i (suc j) n s e h w =
    let (k, f) = fill_fds-Lists ss (i + 1) j n s (omega arith) h w in
    elim (Bool-cases (is_watched x)) [
      | inl yes_here ↦ rw yes_here (suc k, f)
      | inr not_here ↦ rw not_here (k, f)
    ]

-- In a sound table, `poll` is given every watched descriptor, with the events watched for.
pub fill_fds_complete :
    {Cb : Type 0} (p : Poll Cb) (fd : ℕ) (s : Source Cb)
    → IsPoll p
    → get_elem? p.sources fd ≡ some s
    → is_watched s ≡ true
    → Lists (fill_fds 0 (take (p.max_source + 1) p.sources)) (fd, s.poll_in, s.poll_out)
fill_fds_complete p fd s v e w =
    fill_fds-Lists (take (p.max_source + 1) p.sources) 0 fd fd s (omega arith)
      (get_elem?-take p.sources (p.max_source + 1) fd s e (omega (arith, v.reach fd s e w))) w

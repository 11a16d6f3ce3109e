-- ===== src/Adapter/Open.antt =====
-- `adapter_open`: the entry of the table that it takes, the port, and its registration.
use serialusb.Common.{
  ℕ, zero, suc, ◌+◌, ◌<◌, ◌≡◌, refl, inl, inr, none, some, List, [], ◌∷◌, arith, Bool-cases,
  Option-cases, true, false, length, set,
}
use serialusb.Common.Int.{ℤ, pos, minus_one, is_neg}
use serialusb.Protocol.{usart_baudrate}
use serialusb.Adapter.{Adapter, Table, entry, find_free, install, adapter_open}
use serialusb.Adapter.Line.{Serial}

-- The search finds the first free entry, and nothing only if there is none.
find_free-some :
    {Cb : Type 0} (t : Table Cb) (k i : ℕ)
    → find_free k t ≡ some i
    → (j : ℕ) × (i ≡ k + j) × (j < length t) × (is_neg (entry t j).serial ≡ true)
unfolding find_free
find_free-some [] k i e = cc
find_free-some (a ∷ t) k i e = elim (Bool-cases (is_neg a.serial)) [
  | inl free ↦ (0, ground arith, omega arith, free)
  | inr taken ↦
      let (j, p, q, r) = find_free-some t (k + 1) i (ground arith) in
      (suc j, omega arith, omega arith, r)
]

find_free-none :
    {Cb : Type 0} (t : Table Cb) (k j : ℕ)
    → find_free k t ≡ none
    → j < length t
    → is_neg (entry t j).serial ≡ false
unfolding find_free
find_free-none [] k j e h = absurd (omega arith)
find_free-none (a ∷ t) k zero e h = ground arith
find_free-none (a ∷ t) k (suc j) e h = find_free-none t (k + 1) j (ground arith) (omega arith)

module _ (port : Serial) {Cb : Type 0} (t : Table Cb) (path : List ℕ) (cb : Cb) (w : port.W) where
  -- The descriptor that the serial layer returns, and the entry as `adapter_open` fills it.
  abbrev pub opened : ℤ
  opened = (port.open_port path usart_baudrate w).1

  abbrev pub filled : ℕ → Adapter Cb
  filled i = record (entry t i) { serial = opened; fp_packet_cb = some cb }

  -- The registration of the opened port for an entry.
  abbrev pub registration : ℕ → port.W × ℤ
  registration i = port.register opened i (port.open_port path usart_baudrate w).0

  pub data Opened : Table Cb × port.W × ℤ → Type 0 where
    refused :
        {out : Table Cb × port.W × ℤ}
        → out ≡ (t, (port.open_port path usart_baudrate w).0, minus_one)
        → is_neg opened ≡ true
        → Opened out
    full :
        {out : Table Cb × port.W × ℤ}
        → out ≡ (t, (port.close_port opened (port.open_port path usart_baudrate w).0).0, minus_one)
        → is_neg opened ≡ false
        → ((j : ℕ) → j < length t → is_neg (entry t j).serial ≡ false)
        → Opened out
    taken :
        {out : Table Cb × port.W × ℤ} (i : ℕ)
        → out ≡ (set t i (filled i), (registration i).0, pos i)
        → is_neg opened ≡ false
        → i < length t
        → is_neg (entry t i).serial ≡ true
        → is_neg (registration i).1 ≡ false
        → Opened out
    unregistered :
        {out : Table Cb × port.W × ℤ} (i : ℕ)
        → out ≡ (set t i (filled i), (registration i).0, minus_one)
        → is_neg opened ≡ false
        → i < length t
        → is_neg (entry t i).serial ≡ true
        → is_neg (registration i).1 ≡ true
        → Opened out

  -- Every outcome of `adapter_open`: the port does not open, the table stays, and the result is -1; no
  -- entry is free, the port is closed again, the table stays, and the result is -1; or a free entry
  -- alone is filled, and the port is registered with its index: if that succeeds the result is the
  -- index, and if it fails the result is -1, and the entry stays filled.
  pub adapter_open-Opened : Opened (adapter_open port t path cb w)
  unfolding adapter_open
  adapter_open-Opened = elim (Bool-cases (is_neg opened)) [
    | inl bad ↦ rw bad (refused refl bad)
    | inr good ↦ rw good (elim (Option-cases (find_free 0 t)) [
      | inl e ↦ rw (e, install) (full refl good (λ j h. find_free-none t 0 j e h))
      | inr (i, e) ↦
          let (j, p, q, r) = find_free-some t 0 i e in
          let same : i ≡ j = omega arith in
          rw (e, install, same)
            (elim (Bool-cases (is_neg (registration j).1)) [
              | inl failed ↦ rw failed (unregistered j refl good q r failed)
              | inr fine ↦ rw fine (taken j refl good q r fine)
            ])
    ])
  ]

-- ===== src/CommandLog/Contiguous.antt =====
-- The log of src/replication/command_log.cpp has no gap, and what a lookup and a range of it give.
use sententia.Prelude.{
  ℕ, ◌+◌, ◌-◌, ◌^◌, ◌≤◌, ◌<◌, ◌≡◌, ◌≢◌, refl, sym, subst, ◌⊎◌, inl, inr, true, false, ltb, ◌==◌,
  ==→≡, min, max, Bool-cases, some, List, [], ◌∷◌, ◌++◌, arith, inc64,
}
use sententia.Types.{Command}
use sententia.CommandLog.{
  LogEntry, CommandLog, is_empty, front_seq, pop_back, back_seq, append, append_at, first_seq, at,
  range, truncate_from, truncate_through, set_snapshot_boundary, clear, can_serve_from,
}
use sententia.CommandLog.Chain.{
  Chain, Chain-length, Chain-append, Chain-get_elem?, Chain-segment, back_seq-Chain, pop_back-Chain,
  pop_front-Chain,
}

-- The retained entries have one number each, without a gap, up to `last_seq`.
abbrev pub IsContiguous : CommandLog → Type 0
IsContiguous log = (b : ℕ) × Chain b log.entries log.last_seq

-- The operations that change the log.
pub data Operation : Type 0 where
  appended : Command → ℕ → Operation
  appended_at : ℕ → ℕ → Command → Operation
  truncated_from : ℕ → Operation
  truncated_through : ℕ → Operation
  bounded : ℕ → ℕ → Operation
  cleared : Operation

unfoldable pub operate : Operation → CommandLog → CommandLog
operate (appended cmd term) log = (append cmd term log).1
operate (appended_at seq term cmd) log = (append_at seq term cmd log).1
operate (truncated_from seq) log = truncate_from seq log
operate (truncated_through seq) log = truncate_through seq log
operate (bounded seq term) log = set_snapshot_boundary seq term log
operate cleared log = clear log

-- A snapshot boundary is set in an empty log, or not behind the last entry.
abbrev pub Fits : Operation → CommandLog → Type 0
Fits (bounded seq term) log = (log.entries ≡ []) ⊎ (seq ≤ log.last_seq)
Fits _ log = Unit

closed :
    (b : ℕ) (xs : List LogEntry) (k d : ℕ) → Chain b xs k → (n : ℕ) × Chain n xs (back_seq d xs)
closed b [] k d chain = (d, refl)
closed b (x ∷ xs) k d chain = elim (back_seq-Chain b (x ∷ xs) k d chain) [
  | inl empty ↦ ground (arith, empty)
  | inr same ↦ (b, rw same chain)
]

truncate_from-IsContiguous :
    (seq : ℕ) (log : CommandLog) → IsContiguous log → IsContiguous (truncate_from seq log)
unfolding truncate_from
truncate_from-IsContiguous seq log (b, chain) =
    let (k, rest) = pop_back-Chain seq b log.entries log.last_seq chain in
    closed b (pop_back seq log.entries) k (max log.snapshot_seq log.truncated_through) rest

pushed :
    (b : ℕ) (xs : List LogEntry) (l : ℕ) (x : LogEntry)
    → x.seq ≡ l + 1
    → Chain b xs l
    → Chain b (xs ++ x ∷ []) x.seq
pushed b xs l x s chain = subst (Chain b (xs ++ x ∷ [])) (sym s) (Chain-append b xs l x chain s)

append_at-IsContiguous :
    (seq term : ℕ) (cmd : Command) (log : CommandLog)
    → log.last_seq + 1 < 2 ^ 64
    → IsContiguous log
    → IsContiguous (append_at seq term cmd log).1
unfolding append_at
append_at-IsContiguous seq term cmd log r (b, chain) =
    elim (Bool-cases (seq == inc64 log.last_seq)) [
      | inl next ↦ rw next (
        b,
        pushed b log.entries log.last_seq _ (omega (arith, r, ==→≡ seq (inc64 log.last_seq) next))
            chain,
      )
      | inr off ↦ rw off (b, chain)
    ]

bounded-IsContiguous :
    (seq term : ℕ) (log : CommandLog)
    → (log.entries ≡ []) ⊎ (seq ≤ log.last_seq)
    → IsContiguous log
    → IsContiguous (set_snapshot_boundary seq term log)
unfolding set_snapshot_boundary
bounded-IsContiguous seq term log f (b, chain) = elim (Bool-cases (ltb log.last_seq seq)) [
  | inl past ↦ elim f [
    | inl bare ↦ (seq, rw (past, bare) refl)
    | inr fits ↦ ground (arith, past, fits)
  ]
  | inr within ↦ rw within (b, chain)
]

empty_or_front :
    (b : ℕ) (xs : List LogEntry) (l d : ℕ)
    → Chain b xs l
    → xs ≢ []
    → (is_empty xs ≡ false) × (front_seq d xs ≡ b + 1)
empty_or_front b [] l d chain ne = ground (arith, ne)
empty_or_front b (x ∷ xs) l d chain ne = (refl, chain.0)

-- No operation opens a gap in a log whose next number is a 64-bit number: the entries stay consecutive
-- up to `last_seq`. A snapshot boundary may be set behind the last entry in an empty log only.
pub operate-IsContiguous :
    (o : Operation) (log : CommandLog)
    → log.last_seq + 1 < 2 ^ 64
    → Fits o log
    → IsContiguous log
    → IsContiguous (operate o log)
unfolding operate append truncate_through clear
operate-IsContiguous (appended cmd term) log r f (b, chain) =
    (b, pushed b log.entries log.last_seq _ (omega (arith, r)) chain)
operate-IsContiguous (appended_at seq term cmd) log r f c =
    append_at-IsContiguous seq term cmd log r c
operate-IsContiguous (truncated_from seq) log r f c = truncate_from-IsContiguous seq log c
operate-IsContiguous (truncated_through seq) log r f (b, chain) =
    pop_front-Chain seq log.truncated_through b log.entries log.last_seq chain
operate-IsContiguous (bounded seq term) log r f c = bounded-IsContiguous seq term log f c
operate-IsContiguous cleared log r f c = (0, refl)

first_lem :
    (log : CommandLog) (b : ℕ)
    → Chain b log.entries log.last_seq
    → log.entries ≢ []
    → first_seq log ≡ b + 1
unfolding first_seq
first_lem log b chain ne =
    (empty_or_front b log.entries log.last_seq (inc64 log.truncated_through) chain ne).1

-- In a log without gaps that is not empty, a lookup between the first retained number and the last
-- gives the entry of that number.
pub found_at :
    (seq : ℕ) (log : CommandLog)
    → IsContiguous log
    → log.entries ≢ []
    → first_seq log ≤ seq
    → seq ≤ log.last_seq
    → (x : LogEntry) × (at seq log ≡ some x) × (x.seq ≡ seq)
unfolding at
found_at seq log (b, chain) ne lo hi =
    let front : first_seq log ≡ b + 1 = first_lem log b chain ne in
    let kept = (empty_or_front b log.entries log.last_seq 0 chain ne).0 in
    let low : ltb seq (b + 1) ≡ false = ground (arith, lo, front) in
    let high : ltb log.last_seq seq ≡ false = ground (arith, hi) in
    let (x, found, s) =
      Chain-get_elem? b log.entries log.last_seq (seq - (b + 1)) chain
        (omega (arith, lo, hi, front, Chain-length b log.entries log.last_seq chain)) in
    rw (kept, front, first_seq log, low, high) (x, found, omega (arith, s, lo, front))

-- In a log without gaps that is not empty, a range that starts at a retained number has the entries
-- from there on, without a gap, as many as asked for or as there are.
pub range_lem :
    (from n : ℕ) (log : CommandLog)
    → IsContiguous log
    → log.entries ≢ []
    → first_seq log ≤ from
    → from ≤ log.last_seq
    → Chain (from - 1) (range from n log) (from - 1 + min n (log.last_seq + 1 - from))
unfolding range
range_lem from n log (b, chain) ne lo hi =
    let front : first_seq log ≡ b + 1 = first_lem log b chain ne in
    let kept = (empty_or_front b log.entries log.last_seq 0 chain ne).0 in
    let low : ltb from (b + 1) ≡ false = ground (arith, lo, front) in
    let high : ltb log.last_seq from ≡ false = ground (arith, hi) in
    let len = Chain-length b log.entries log.last_seq chain in
    rw (kept, front, first_seq log, low, high)
      (elim (Bool-cases (n == 0)) [
        | inl nothing ↦ rw nothing (ground (arith, nothing))
        | inr more ↦ rw more (
            Chain-segment b log.entries log.last_seq (from - (b + 1)) _ (from - 1) _ chain
              (omega (arith, lo, hi, front, len)) (omega (arith, lo, front))
              (omega (arith, lo, hi, front, len)))
      ])

-- A log without gaps that is not empty, and whose next number is a 64-bit number, says that it can
-- serve a follower from a number only if it holds the entry of that number or comes just before it.
pub served :
    (from : ℕ) (log : CommandLog)
    → IsContiguous log
    → log.entries ≢ []
    → log.last_seq + 1 < 2 ^ 64
    → can_serve_from from log ≡ true
    → (from ≡ log.last_seq + 1) ⊎ ((x : LogEntry) × (at from log ≡ some x) × (x.seq ≡ from))
unfolding can_serve_from
served from log c ne r can = elim (Bool-cases (from == inc64 log.last_seq)) [
  | inl next ↦ inl (omega (arith, r, ==→≡ from (inc64 log.last_seq) next))
  | inr other ↦
      inr (found_at from log c ne (ground (arith, other, can)) (ground (arith, other, can)))
]

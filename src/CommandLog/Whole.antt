-- ===== src/CommandLog/Whole.antt =====
-- A log of src/replication/command_log.cpp that holds every entry from the first on: what a lookup,
-- an append and a truncation do to it.
use sententia.Prelude.{
  ℕ, zero, suc, ◌+◌, ◌-◌, ◌≤◌, ◌<◌, ◌≡◌, refl, sym, ap, subst, ◌∙◌, inl, inr, true, false, ◌==◌,
  ltb, leb, Bool-cases, some, none, List, [], ◌∷◌, ◌++◌, length, arith, inc64, get_elem?, take,
}
use sententia.Types.{Command}
use sententia.CommandLog.{
  LogEntry, CommandLog, push, entry_term, is_empty, front_seq, pop_back, back_seq, first_seq, at,
  term_at, append_at, truncate_from,
}
use sententia.CommandLog.Chain.{Chain, Chain-length, Chain-append, Chain-get_elem?, Chain-take}

pub record IsWhole (log : CommandLog) : Type 0 where
  pub chain : Chain 0 log.entries log.last_seq
  pub no_snapshot : log.snapshot_seq ≡ 0
  pub no_truncation : log.truncated_through ≡ 0

pub length-whole : (log : CommandLog) → IsWhole log → length log.entries ≡ log.last_seq
length-whole log w = omega (arith, Chain-length 0 log.entries log.last_seq w.chain)

front :
    (xs : List LogEntry) (l d k : ℕ)
    → Chain 0 xs l
    → k < l
    → (is_empty xs ≡ false) × (front_seq d xs ≡ 1)
front [] l d k c h = ground (arith, c, h)
front (x ∷ xs) l d k c h = (refl, c.0)

-- A lookup in a whole log is the lookup in the list of its entries.
pub at-whole :
    (k : ℕ) (log : CommandLog)
    → IsWhole log
    → k < log.last_seq
    → (x : LogEntry) × (at (k + 1) log ≡ some x)
      × (get_elem? log.entries k ≡ some x)
      × (x.seq ≡ k + 1)
unfolding at first_seq
at-whole k log w h =
    let (kept, first) = front log.entries log.last_seq (inc64 log.truncated_through) k w.chain h in
    let (x, found, s) =
      Chain-get_elem? 0 log.entries log.last_seq k w.chain (omega (arith, h, length-whole log w)) in
    let low : ltb (k + 1) 1 ≡ false = ground arith in
    let high : ltb log.last_seq (k + 1) ≡ false = ground (arith, h) in
    let back : k + 1 - 1 ≡ k = omega arith in
    (x, rw (kept, first, low, high, back) found, found, omega (arith, s))

pub term_at-whole :
    (k : ℕ) (log : CommandLog)
    → IsWhole log
    → k < log.last_seq
    → (x : LogEntry) × (term_at (k + 1) log ≡ some x.term) × (get_elem? log.entries k ≡ some x)
unfolding term_at
term_at-whole k log w h =
    let (x, here, found, s) = at-whole k log w h in (x, ground (arith, here, w.no_snapshot), found)

-- Past its last entry a log knows no term.
pub term_at-past :
    (seq : ℕ) (log : CommandLog) → IsWhole log → log.last_seq < seq → term_at seq log ≡ none
unfolding term_at at
term_at-past seq log w h = rw (w.no_snapshot) (ground (arith, h))

take-nil : (n : ℕ) → take {A = LogEntry} n [] ≡ []
take-nil zero = refl
take-nil (suc n) = refl

pop_back-lem :
    (seq b : ℕ) (xs : List LogEntry) (l : ℕ)
    → Chain b xs l
    → pop_back seq xs ≡ take (seq - (b + 1)) xs
unfolding pop_back
pop_back-lem seq b [] l c = sym (take-nil (seq - (b + 1)))
pop_back-lem seq b (x ∷ xs) l c = elim (Bool-cases (leb seq x.seq)) [
  | inl gone ↦
      let none_left : seq - (b + 1) ≡ 0 = ground (arith, gone, c.0) in
      let none_after : seq - (b + 1 + 1) ≡ 0 = ground (arith, gone, c.0) in
      rw (pop_back-lem seq (b + 1) xs l c.1, none_after, gone, none_left) refl
  | inr kept ↦
      let more : seq - (b + 1) ≡ suc (seq - (b + 1 + 1)) = ground (arith, kept, c.0) in
      rw (pop_back-lem seq (b + 1) xs l c.1, kept, more) (ground arith)
]

back_seq-lem : (d : ℕ) (xs : List LogEntry) (l : ℕ) → Chain d xs l → back_seq d xs ≡ l
back_seq-lem d [] l c = sym c
back_seq-lem d (x ∷ xs) l c = rw c.0 (back_seq-lem (d + 1) xs l c.1)

-- A truncation leaves the entries below its number, and a whole log.
pub truncate_from-IsWhole :
    (k : ℕ) (log : CommandLog)
    → IsWhole log
    → IsWhole (truncate_from (k + 1) log)
      × ((truncate_from (k + 1) log).entries ≡ take k log.entries)
unfolding truncate_from
truncate_from-IsWhole k log w =
    let back : k + 1 - (0 + 1) ≡ k = omega arith in
    let left : pop_back (k + 1) log.entries ≡ take k log.entries =
      rw (pop_back-lem (k + 1) 0 log.entries log.last_seq w.chain, back) refl in
    let kept = Chain-take 0 log.entries log.last_seq k w.chain in
    (
      record {
        chain =
            rw (left, w.no_snapshot, w.no_truncation)
              (subst (Chain 0 (take k log.entries))
                (sym (back_seq-lem 0 (take k log.entries) _ kept)) kept);
        no_snapshot = w.no_snapshot;
        no_truncation = w.no_truncation;
      },
      left,
    )

-- A new entry at the next number.
pub push-IsWhole :
    (seq term : ℕ) (cmd : Command) (log : CommandLog)
    → IsWhole log
    → seq ≡ log.last_seq + 1
    → IsWhole (push seq term cmd log)
push-IsWhole seq term cmd log w e = record {
  chain =
      subst (Chain 0 (log.entries ++ record { seq = seq; term = term; command = cmd } ∷ [])) (sym e)
        (Chain-append 0 log.entries log.last_seq _ w.chain e);
  no_snapshot = w.no_snapshot;
  no_truncation = w.no_truncation;
}

pub append_at-next :
    (seq term : ℕ) (cmd : Command) (log : CommandLog)
    → (seq == inc64 log.last_seq) ≡ true
    → append_at seq term cmd log ≡ (true, push seq term cmd log)
unfolding append_at
append_at-next seq term cmd log e = rw e refl

-- An append at another number is refused.
pub append_at-refused :
    (seq term : ℕ) (cmd : Command) (log : CommandLog)
    → (seq == inc64 log.last_seq) ≡ false
    → append_at seq term cmd log ≡ (false, log)
unfolding append_at
append_at-refused seq term cmd log e = rw e refl

past_end {ℓ} : {A : Type ℓ} (k : ℕ) (xs : List A) → length xs ≤ k → get_elem? xs k ≡ none
past_end k [] h = refl
past_end zero (x ∷ xs) h = ground (arith, h)
past_end (suc k) (x ∷ xs) h = past_end k xs (omega (arith, h))

-- The terms of a whole log are those of its entries.
pub term_at-elem :
    (k : ℕ) (log : CommandLog)
    → IsWhole log
    → term_at (k + 1) log ≡ entry_term (get_elem? log.entries k)
term_at-elem k log w = elim (Bool-cases (ltb k log.last_seq)) [
  | inl held ↦
      let (x, term, found) = term_at-whole k log w (ground (arith, held)) in
      term ∙ ap entry_term (sym found)
  | inr past ↦
      term_at-past (k + 1) log w (ground (arith, past))
      ∙ ap entry_term (sym (past_end k log.entries (ground (arith, past, length-whole log w))))
]

pub at-past : (seq : ℕ) (log : CommandLog) → log.last_seq < seq → at seq log ≡ none
unfolding at
at-past seq log h = ground (arith, h)

-- A lookup is one in the list of entries.
pub at-elem : (k : ℕ) (log : CommandLog) → IsWhole log → at (k + 1) log ≡ get_elem? log.entries k
at-elem k log w = elim (Bool-cases (ltb k log.last_seq)) [
  | inl held ↦ let (x, here, found, s) = at-whole k log w (ground (arith, held)) in here ∙ sym found
  | inr past ↦
      at-past (k + 1) log (ground (arith, past))
      ∙ sym (past_end k log.entries (ground (arith, past, length-whole log w)))
]

term_at-zero : (log : CommandLog) → term_at 0 log ≡ some 0
unfolding term_at
term_at-zero log = refl

-- Two whole logs with the same entries below a number have the same terms up to it.
pub same_terms :
    (n : ℕ) (log log' : CommandLog)
    → IsWhole log
    → IsWhole log'
    → ((k : ℕ) → k < n → get_elem? log'.entries k ≡ get_elem? log.entries k)
    → (k : ℕ) → k ≤ n
    → term_at k log' ≡ term_at k log
same_terms n log log' w w' same zero h = term_at-zero log' ∙ sym (term_at-zero log)
same_terms n log log' w w' same (suc k) h =
    let next : suc k ≡ k + 1 = omega arith in
    rw next (
      term_at-elem k log' w'
      ∙ ap entry_term (same k (omega (arith, h)))
      ∙ sym (term_at-elem k log w))

-- ===== src/Engine/Numbering.antt =====
-- Event headers: `nextHeader` of src/engine.cpp under every method that emits.
use sententia.Prelude.{
  ℕ, zero, suc, ◌-◌, min, ◌≡◌, refl, sym, ◌∙◌, Option, none, some, List, [], ◌∷◌, ◌++◌, inc64,
  length, Bool-cases, Option-cases, inl, inr, ltb, ◌&&◌,
}
use mathlib.Core.List.{append-nil, append_assoc}
use sententia.Types.{
  RejectReason, no_reason, NewOrder, Command, new_order, cancel_order, EventHeader, Event, header,
}
use sententia.Book
use sententia.Book.{RestingOrder, OrderBook, top}
use sententia.Engine.{
  MatchingEngine, Run, emit, emit_top_of_book_if_changed, trade_front, match_loop, match_order,
  front_to_fill, rest_residual, cancel_residual, settle, accept, reject, validate, after_validation,
  apply_new_order, after_cancel, apply_cancel, dispatch, apply, same_top, is_limit, is_gtc,
}
use sententia.Engine.Priority.{advance}
use sententia.Engine.Matching.{loop-stop, loop-done, loop-round}

-- Events of one command under consecutive ordinals, the first one after `n`.
abbrev pub Numbered : ℕ → ℕ → List Event → Type 0
Numbered command n [] = Unit {0}
Numbered command n (e ∷ es) =
    (header e ≡ record { command_seq = command; event_seq = inc64 n })
    × Numbered command (inc64 n) es

-- `r'` comes from `r` by appending events that are numbered on from the engine's counter.
pub record Extends (r r' : Run) : Type 0 where
  pub events : List Event
  pub appended : r'.1 ≡ r.1 ++ events
  pub numbered : Numbered r.0.command_seq r.0.event_seq events
  pub counter : r'.0.event_seq ≡ advance (length events) r.0.event_seq
  pub command : r'.0.command_seq ≡ r.0.command_seq

Numbered-append :
    (c n : ℕ) (xs ys : List Event)
    → Numbered c n xs
    → Numbered c (advance (length xs) n) ys
    → Numbered c n (xs ++ ys)
unfolding advance
Numbered-append c n [] ys a b = b
Numbered-append c n (x ∷ xs) ys a b = (a.0, Numbered-append c (inc64 n) xs ys a.1 b)

advance-append :
    (n : ℕ) (xs ys : List Event)
    → advance (length (xs ++ ys)) n ≡ advance (length ys) (advance (length xs) n)
unfolding advance
advance-append n [] ys = refl
advance-append n (x ∷ xs) ys = advance-append (inc64 n) xs ys

Extends-refl : (r : Run) → Extends r r
unfolding advance
Extends-refl r = record {
  events = [];
  appended = sym (append-nil r.1);
  numbered = tt;
  counter = refl;
  command = refl;
}

Extends-trans : {q r s : Run} → Extends q r → Extends r s → Extends q s
Extends-trans {q} {r} {s} a b = record {
  events = a.events ++ b.events;
  appended = b.appended ∙ rw (a.appended, append_assoc) refl;
  numbered =
      Numbered-append _ _ a.events b.events a.numbered
        (rw (← a.counter) (rw (← a.command) b.numbered));
  counter = b.counter ∙ rw a.counter (sym (advance-append q.0.event_seq a.events b.events));
  command = b.command ∙ a.command;
}

-- One event, made from the header that it is given.
emit-Extends :
    (event : EventHeader → Event) (r : Run)
    → ((h : EventHeader) → header (event h) ≡ h)
    → Extends r (emit event r)
unfolding emit advance
emit-Extends event r e = record {
  events = event (record { command_seq = r.0.command_seq; event_seq = inc64 r.0.event_seq }) ∷ [];
  appended = refl;
  numbered = (e _, tt);
  counter = refl;
  command = refl;
}

-- A step that touches neither the list of events nor the counters.
silent-Extends :
    (r s : Run)
    → s.1 ≡ r.1
    → s.0.event_seq ≡ r.0.event_seq
    → s.0.command_seq ≡ r.0.command_seq
    → Extends r s
unfolding advance
silent-Extends r s e n c = record {
  events = [];
  appended = e ∙ sym (append-nil r.1);
  numbered = tt;
  counter = n;
  command = c;
}

top-Extends : (r : Run) → Extends r (emit_top_of_book_if_changed r)
unfolding emit_top_of_book_if_changed header
top-Extends (e, out) = elim (Bool-cases (same_top (top e.book) e.last_top)) [
  | inl same ↦ rw same (Extends-refl (e, out))
  | inr differs ↦ rw differs (
      Extends-trans
        (silent-Extends (e, out) (record e { last_top = top e.book }, out) refl refl refl)
        (emit-Extends _ _ (λ h. refl)))
]

trade-Extends :
    (cmd : NewOrder) (fill : ℕ) (front : RestingOrder) (r : Run)
    → Extends r (trade_front cmd fill front r)
unfolding trade_front header
trade-Extends cmd fill front r =
    Extends-trans (emit-Extends _ r (λ h. refl)) (silent-Extends _ _ refl refl refl)

match_loop-Extends :
    (fuel : ℕ) (cmd : NewOrder) (q : ℕ) (r : Run) → Extends r (match_loop fuel cmd q r).1
match_loop-Extends zero cmd q r = unfold match_loop in Extends-refl r
match_loop-Extends (suc fuel) cmd q r = elim (Bool-cases (ltb 0 q)) [
  | inr done ↦ rw (loop-done cmd q fuel r done) (Extends-refl r)
  | inl more ↦ elim (Option-cases (front_to_fill cmd r.0.book)) [
    | inl stops ↦ rw (loop-stop cmd q fuel r stops) (Extends-refl r)
    | inr (o, trades) ↦ rw (loop-round cmd q fuel r more trades) (
        Extends-trans (trade-Extends cmd (min q o.quantity) o r) (
          match_loop-Extends fuel cmd (q - min q o.quantity)
            (trade_front cmd (min q o.quantity) o r)))
  ]
]

settle-Extends : (cmd : NewOrder) (q : ℕ) (r : Run) → Extends r (settle cmd (q, r))
unfolding settle rest_residual cancel_residual header
settle-Extends cmd q (e, out) = elim (Bool-cases (ltb 0 q)) [
  | inr none_left ↦ rw none_left (Extends-refl (e, out))
  | inl some_left ↦ rw some_left (elim (Bool-cases (is_limit cmd.kind && is_gtc cmd.tif)) [
    | inl rests ↦
        rw rests
          (Extends-trans (silent-Extends (e, out) _ refl refl refl) (emit-Extends _ _ (λ h. refl)))
    | inr goes ↦ rw goes (emit-Extends _ (e, out) (λ h. refl))
  ])
]

reject-Extends : (cmd : NewOrder) (why : RejectReason) (r : Run) → Extends r (reject cmd why r)
unfolding reject header
reject-Extends cmd why r = emit-Extends _ r (λ h. refl)

validated-Extends :
    (why : RejectReason) (cmd : NewOrder) (r : Run) → Extends r (after_validation why cmd r)
unfolding after_validation match_order accept header
validated-Extends no_reason cmd r = Extends-trans (emit-Extends _ r (λ h. refl)) (
    Extends-trans (match_loop-Extends _ cmd cmd.quantity _)
      (Extends-trans (settle-Extends cmd _ _) (top-Extends _)))
validated-Extends why cmd r = reject-Extends cmd _ r

cancelled-Extends :
    (k : ℕ) (result : Option RestingOrder × OrderBook) (r : Run)
    → Extends r (after_cancel k result r)
unfolding after_cancel header
cancelled-Extends k (none, b) r = emit-Extends _ r (λ h. refl)
cancelled-Extends k (some removed, b) (e, out) =
    Extends-trans (silent-Extends (e, out) (record e { book = b }, out) refl refl refl)
      (Extends-trans (emit-Extends _ _ (λ h. refl)) (top-Extends _))

dispatch-Extends : (c : Command) (r : Run) → Extends r (dispatch c r)
unfolding dispatch apply_new_order apply_cancel
dispatch-Extends (new_order cmd) r = validated-Extends (validate cmd r.0) cmd r
dispatch-Extends (cancel_order cmd) r = cancelled-Extends cmd.id (Book.cancel cmd.id r.0.book) r

-- Whatever the command and the state, `apply` raises the command counter by one, keeps what `out`
-- held, and appends events that carry the new command number and the next event ordinals in order.
pub apply-Extends :
    (c : Command) (e : MatchingEngine) (out : List Event)
    → Extends (record e { command_seq = inc64 e.command_seq }, out) (apply c (e, out))
unfolding apply
apply-Extends c e out = dispatch-Extends c (record e { command_seq = inc64 e.command_seq }, out)

-- ===== src/Book/Relevel.antt =====
-- Updates of the price levels of one side, of src/order_book.cpp: what each does to the walk, and
-- that the levels stay in order, none of them empty.
use sententia.Prelude.{ℕ, ◌<◌, ◌≡◌, refl, inl, inr, true, some, List, [], ◌∷◌, arith, Bool-cases}
use sententia.Prelude.Int.{ℤ, eqz, eqz→≡}
use sententia.Types.{Side}
use sententia.Book.{
  RestingOrder, Level, before, find, remove, push_back, keep_level, erase_order, write_quantity,
  walk,
}
use sententia.Book.Inserted.{
  Inserted, here, Inserted-append_right, Inserted-append_left, Inserted-end, remove-Inserted,
  set_quantity-Inserted, remove-set_quantity,
}
use sententia.Book.Levels.{
  Fits, AllFit, Ahead, LevelsOk, before_total, Ahead-trans, AllFit-end, AllFit-remove,
  AllFit-set_quantity, end-ne-nil, set_quantity-ne-nil, level_cases, walk-keep_level, walk-cons,
}

module _ (s : Side) (o : RestingOrder) where
  -- `rest` adds the order to the walk and moves no other.
  pub Inserted-push_back : (ls : List Level) → Inserted o (walk ls) (walk (push_back s o ls))
  unfolding walk push_back
  Inserted-push_back [] = here
  Inserted-push_back (l ∷ ls) = elim (Bool-cases (eqz l.price o.price)) [
    | inl same ↦ rw same (Inserted-end o l.queue (walk ls))
    | inr other ↦ rw other (elim (Bool-cases (before s o.price l.price)) [
      | inl ahead ↦ rw ahead here
      | inr behind ↦ rw behind (Inserted-append_left l.queue (Inserted-push_back ls))
    ])
  ]

  Ahead-push_back :
      (p : ℤ) (ls : List Level)
      → before s p o.price ≡ true
      → Ahead s p ls
      → Ahead s p (push_back s o ls)
  unfolding push_back
  Ahead-push_back p [] h a = (h, tt)
  Ahead-push_back p (l ∷ ls) h a = ground (arith, Ahead-push_back p ls)

  pub LevelsOk-push_back :
      (ls : List Level) → Fits s o.price o → LevelsOk s ls → LevelsOk s (push_back s o ls)
  unfolding push_back
  LevelsOk-push_back [] f ok = (λ e. cc, (f, tt), tt, tt)
  LevelsOk-push_back (l ∷ ls) f ok = elim (Bool-cases (eqz l.price o.price)) [
    | inl same ↦ rw same (
      end-ne-nil l.queue o,
      AllFit-end s l.price l.queue o (rw (eqz→≡ l.price o.price same) f) ok.1,
      ok.2,
      ok.3,
    )
    | inr other ↦ rw other (elim (Bool-cases (before s o.price l.price)) [
      | inl ahead ↦
          rw ahead (λ e. cc, (f, tt), (ahead, Ahead-trans s o.price l.price ls ahead ok.2), ok)
      | inr behind ↦ rw behind (
        ok.0,
        ok.1,
        Ahead-push_back l.price ls (before_total s l.price o.price other behind) ok.2,
        LevelsOk-push_back ls f ok.3,
      )
    ])
  ]

module _ (s : Side) (k : ℕ) where
  -- `eraseLocated` takes the order out of the walk and moves no other.
  pub Inserted-erase_order :
      (ls : List Level) {o : RestingOrder}
      → LevelsOk s ls
      → find k (walk ls) ≡ some o
      → Inserted o (walk (erase_order o.price k ls)) (walk ls)
  unfolding erase_order
  Inserted-erase_order [] ok h = unfold find walk in cc
  Inserted-erase_order (l ∷ ls) {o} ok h = elim (level_cases s k l ls ok h) [
    | inl (same, now) ↦
        rw (same, walk-keep_level l.price (remove k l.queue) ls)
          (unfold walk in Inserted-append_right (walk ls) (remove-Inserted k l.queue now))
    | inr (other, _, later) ↦
        rw (other, walk-cons, walk-cons)
          (Inserted-append_left l.queue (Inserted-erase_order ls ok.3 later))
  ]

  Ahead-erase_order :
      (p q : ℤ) (ls : List Level) → Ahead s q ls → LevelsOk s ls → Ahead s q (erase_order p k ls)
  unfolding erase_order keep_level
  Ahead-erase_order p q [] a ok = tt
  Ahead-erase_order p q (l ∷ ls) a ok =
      ground (arith, Ahead-erase_order p q ls, Ahead-trans s q l.price ls)

  LevelsOk-keep_level :
      (p : ℤ) (os : List RestingOrder) (ls : List Level)
      → AllFit s p os
      → Ahead s p ls
      → LevelsOk s ls
      → LevelsOk s (keep_level p os ls)
  unfolding keep_level
  LevelsOk-keep_level p [] ls a h ok = ok
  LevelsOk-keep_level p (o ∷ os) ls a h ok = (λ e. cc, a, h, ok)

  pub LevelsOk-erase_order :
      (p : ℤ) (ls : List Level) → LevelsOk s ls → LevelsOk s (erase_order p k ls)
  unfolding erase_order
  LevelsOk-erase_order p [] ok = tt
  LevelsOk-erase_order p (l ∷ ls) ok = elim (Bool-cases (eqz l.price p)) [
    | inl same ↦ rw same (
        LevelsOk-keep_level l.price (remove k l.queue) ls (AllFit-remove s l.price k l.queue ok.1)
          ok.2 ok.3)
    | inr other ↦
        rw other
          (ok.0, ok.1, Ahead-erase_order p l.price ls ok.2 ok.3, LevelsOk-erase_order p ls ok.3)
  ]

  -- A write changes the order in its place, if the order was there.
  pub Inserted-write_quantity :
      (q : ℕ) (ls : List Level) {o : RestingOrder}
      → LevelsOk s ls
      → find k (walk ls) ≡ some o
      → Inserted
          (record o { quantity = q })
          (walk (erase_order o.price k ls))
          (walk (write_quantity o.price k q ls))
  unfolding erase_order write_quantity
  Inserted-write_quantity q [] ok h = unfold find walk in cc
  Inserted-write_quantity q (l ∷ ls) {o} ok h = elim (level_cases s k l ls ok h) [
    | inl (same, now) ↦
        rw (same, walk-keep_level l.price (remove k l.queue) ls)
          (unfold walk in Inserted-append_right (walk ls) (set_quantity-Inserted k q l.queue now))
    | inr (other, _, later) ↦
        rw (other, walk-cons, walk-cons)
          (Inserted-append_left l.queue (Inserted-write_quantity q ls ok.3 later))
  ]

  Ahead-write_quantity :
      (p r : ℤ) (q : ℕ) (ls : List Level) → Ahead s r ls → Ahead s r (write_quantity p k q ls)
  unfolding write_quantity
  Ahead-write_quantity p r q [] a = tt
  Ahead-write_quantity p r q (l ∷ ls) a = ground (arith, Ahead-write_quantity p r q ls)

  pub LevelsOk-write_quantity :
      (p : ℤ) (q : ℕ) (ls : List Level)
      → 0 < q
      → LevelsOk s ls
      → LevelsOk s (write_quantity p k q ls)
  unfolding write_quantity
  LevelsOk-write_quantity p q [] h ok = tt
  LevelsOk-write_quantity p q (l ∷ ls) h ok = ground (
    arith,
    set_quantity-ne-nil k q l.queue,
    AllFit-set_quantity s l.price k q l.queue,
    Ahead-write_quantity p l.price q ls,
    LevelsOk-write_quantity p q ls,
  )

-- `reduce` to zero erases what was there before.
pub erase-write :
    (p : ℤ) (k q : ℕ) (ls : List Level)
    → erase_order p k (write_quantity p k q ls) ≡ erase_order p k ls
unfolding erase_order write_quantity
erase-write p k q [] = refl
erase-write p k q (l ∷ ls) = elim (Bool-cases (eqz l.price p)) [
  | inl same ↦ rw (same, same, remove-set_quantity k q l.queue)
  | inr other ↦ rw (other, other, erase-write p k q ls)
]

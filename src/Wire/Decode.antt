-- ===== src/Wire/Decode.antt =====
-- Reads of include/sententia/net/wire.hpp one after another, as src/net/message.cpp chains them: the
-- first that fails ends the chain. And what it is to read back what was written.
use sententia.Prelude.{
  ℕ, ◌+◌, ◌^◌, ◌≤◌, ◌<◌, ◌≡◌, refl, ap, sym, ◌∙◌, Option, none, some, List, [], ◌∷◌, ◌++◌, length,
  length-append, append_assoc, append-nil, arith,
}
use sententia.Prelude.Int.{ℤ}
use sententia.Wire.{
  WireReader, put_u8, put_u16, put_u32, put_u64, put_i64, put_str, get_u8, get_u16, get_u32,
  get_u64, get_i64, get_str,
}
use sententia.Wire.Reading.{
  reading, IsInt64, get_u8-put_u8, get_u16-put_u16, get_u32-put_u32, get_u64-put_u64,
  get_i64-put_i64,
}
use sententia.Wire.Strings.{get_str-put_str}

abbrev pub Decode {ℓ} : Type ℓ → Type ℓ
Decode A = WireReader → Option A × WireReader

module _ {ℓ κ} {A : Type ℓ} {B : Type κ} where
  abbrev pub and_then : (A → Decode B) → Option A × WireReader → Option B × WireReader
  and_then f (none, r) = (none, r)
  and_then f (some a, r) = f a r

  infixl 5 ◌>>=◌
  unfoldable pub ◌>>=◌ : Decode A → (A → Decode B) → Decode B
  (p >>= f) r = and_then f (p r)

module _ {ℓ} {A : Type ℓ} where
  unfoldable pub pure : A → Decode A
  pure a r = (some a, r)

  unfoldable pub fail : Decode A
  fail r = (none, r)

-- Writing with `put` appends some bytes, from which `get` reads `a` and nothing behind them.
pub record ReadsBack {ℓ} {A : Type ℓ} (put : List ℕ → List ℕ) (get : Decode A) (a : A)
    : Type ℓ where
  pub printed : List ℕ
  pub writes : (out : List ℕ) → put out ≡ out ++ printed
  pub reads :
      (before after : List ℕ)
      → get (reading before (printed ++ after)) ≡ (some a, reading (before ++ printed) after)

pub pure-ReadsBack {ℓ} : {A : Type ℓ} (a : A) → ReadsBack (λ out. out) (pure a) a
unfolding pure
pure-ReadsBack a = record {
  printed = [];
  writes = λ out. sym (append-nil out);
  reads = λ before after. rw (append-nil before) refl;
}

pub bind-ReadsBack {ℓ κ} :
    {A : Type ℓ} {B : Type κ} {put put2 : List ℕ → List ℕ} {get : Decode A} (f : A → Decode B)
    {a : A} {b : B}
    → ReadsBack put get a
    → ReadsBack put2 (f a) b
    → ReadsBack (λ out. put2 (put out)) (get >>= f) b
unfolding ◌>>=◌
bind-ReadsBack {put = put} {get = get} f {b = b} h k = record {
  printed = h.printed ++ k.printed;
  writes = λ out.
      k.writes (put out)
      ∙ (ap (λ l. l ++ k.printed) (h.writes out) ∙ append_assoc out h.printed k.printed);
  reads = λ before after.
      ap (λ l. and_then f (get (reading before l))) (append_assoc h.printed k.printed after)
      ∙ (ap (and_then f) (h.reads before (k.printed ++ after))
          ∙ (k.reads (before ++ h.printed) after
              ∙ ap (λ l. (some b, reading l after)) (append_assoc before h.printed k.printed)));
}

-- The same for a read that wants to be at the end.
pub record Completes {ℓ} {A : Type ℓ} (put : List ℕ → List ℕ) (get : Decode A) (a : A)
    : Type ℓ where
  pub printed : List ℕ
  pub writes : (out : List ℕ) → put out ≡ out ++ printed
  pub reads :
      (before : List ℕ) → get (reading before printed) ≡ (some a, reading (before ++ printed) [])

pub bind-Completes {ℓ κ} :
    {A : Type ℓ} {B : Type κ} {put put2 : List ℕ → List ℕ} {get : Decode A} (f : A → Decode B)
    {a : A} {b : B}
    → ReadsBack put get a
    → Completes put2 (f a) b
    → Completes (λ out. put2 (put out)) (get >>= f) b
unfolding ◌>>=◌
bind-Completes {put = put} {get = get} f {b = b} h k = record {
  printed = h.printed ++ k.printed;
  writes = λ out.
      k.writes (put out)
      ∙ (ap (λ l. l ++ k.printed) (h.writes out) ∙ append_assoc out h.printed k.printed);
  reads = λ before.
      ap (and_then f) (h.reads before k.printed)
      ∙ (k.reads (before ++ h.printed)
          ∙ ap (λ l. (some b, reading l [])) (append_assoc before h.printed k.printed));
}

-- A read that the lemmas of the reader state leaves it behind the bytes.
behind :
    (before bytes after : List ℕ) (n : ℕ)
    → length bytes ≡ n
    → record (reading before (bytes ++ after)) { position = length before + n }
      ≡ reading (before ++ bytes) after
behind before bytes after n h =
    rw (append_assoc before bytes after, length-append before bytes, h) refl

pub u64-ReadsBack : (v : ℕ) → v < 2 ^ 64 → ReadsBack (put_u64 v) get_u64 v
u64-ReadsBack v h = record {
  printed = put_u64 v [];
  writes = λ out. unfold put_u64 in refl;
  reads = λ before after.
      get_u64-put_u64 v before after h
      ∙ ap (λ r. (some v, r)) (behind before (put_u64 v []) after 8 (unfold put_u64 in refl));
}

pub u32_read :
    (v : ℕ) (before after : List ℕ)
    → v < 2 ^ 32
    → get_u32 (reading before (put_u32 v [] ++ after))
      ≡ (some v, reading (before ++ put_u32 v []) after)
u32_read v before after h =
    get_u32-put_u32 v before after h
    ∙ ap (λ r. (some v, r)) (behind before (put_u32 v []) after 4 (unfold put_u32 in refl))

pub u32-ReadsBack : (v : ℕ) → v < 2 ^ 32 → ReadsBack (put_u32 v) get_u32 v
u32-ReadsBack v h = record {
  printed = put_u32 v [];
  writes = λ out. unfold put_u32 in refl;
  reads = λ before after. u32_read v before after h;
}

pub i64-ReadsBack : (v : ℤ) → IsInt64 v → ReadsBack (put_i64 v) get_i64 v
i64-ReadsBack v h = record {
  printed = put_i64 v [];
  writes = λ out. unfold put_i64 put_u64 in refl;
  reads = λ before after.
      get_i64-put_i64 v before after h
      ∙ ap (λ r. (some v, r))
          (behind before (put_i64 v []) after 8 (unfold put_i64 put_u64 in refl));
}

pub u16_read :
    (v : ℕ) (before after : List ℕ)
    → v < 2 ^ 16
    → get_u16 (reading before (put_u16 v [] ++ after))
      ≡ (some v, reading (before ++ put_u16 v []) after)
u16_read v before after h =
    get_u16-put_u16 v before after h
    ∙ ap (λ r. (some v, r)) (behind before (put_u16 v []) after 2 (unfold put_u16 in refl))

pub u16-ReadsBack : (v : ℕ) → v < 2 ^ 16 → ReadsBack (put_u16 v) get_u16 v
u16-ReadsBack v h = record {
  printed = put_u16 v [];
  writes = λ out. unfold put_u16 in refl;
  reads = λ before after. u16_read v before after h;
}

pub u8-ReadsBack : (v : ℕ) → ReadsBack (put_u8 v) get_u8 v
u8-ReadsBack v = record {
  printed = v ∷ [];
  writes = λ out. unfold put_u8 in refl;
  reads = λ before after.
      get_u8-put_u8 v before after ∙ ap (λ r. (some v, r)) (behind before (v ∷ []) after 1 refl);
}

length-put_str : (s : List ℕ) → length (put_str s []) ≡ 4 + length s
unfolding put_str put_u32
length-put_str s = omega arith

pub str-ReadsBack :
    (s : List ℕ) (max_len : ℕ)
    → length s ≤ max_len
    → max_len < 2 ^ 32
    → ReadsBack (put_str s) (get_str max_len) s
str-ReadsBack s max_len fits small = record {
  printed = put_str s [];
  writes = λ out. unfold put_str put_u32 in append_assoc out _ s;
  reads = λ before after.
      get_str-put_str s max_len before after fits small
      ∙ ap (λ r. (some s, r))
          (ap (λ n. record (reading before (put_str s [] ++ after)) { position = n })
              {x = length before + 4 + length s} {y = length before + (4 + length s)} (omega arith)
            ∙ behind before (put_str s []) after (4 + length s) (length-put_str s));
}

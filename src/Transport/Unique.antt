-- ===== src/Transport/Unique.antt =====
-- At most one connection of src/net/transport.cpp is ready under an id.
use sententia.Prelude.{
  ℕ, zero, suc, ◌≡◌, ◌≢◌, refl, sym, ap, ◌∙◌, subst, ◌⊎◌, inl, inr, Bool, true, Bool-cases, Option,
  none, some, Option-cases, List, [], ◌∷◌, ==→≡, ==-refl-of, get_elem?, set, arith,
}
use sententia.Transport.{
  Peer, Run, is_ready_state, is_ready_as, find_peer, dropped, drop_known, drop_peer,
}

abbrev pub IsReady : Peer → Type 0
IsReady p = is_ready_state p.state ≡ true

-- Two places with ready connections under one id are one place.
abbrev pub IsUnique : List Peer → Type 0
IsUnique ps =
    (j k : ℕ) (p q : Peer)
    → get_elem? ps j ≡ some p
    → get_elem? ps k ≡ some q
    → IsReady p
    → IsReady q
    → p.id ≡ q.id
    → j ≡ k

pub get_elem?-set :
    (ps : List Peer) (i j : ℕ) (v q : Peer)
    → get_elem? (set ps i v) j ≡ some q
    → ((j ≡ i) × (q ≡ v)) ⊎ ((j ≢ i) × (get_elem? ps j ≡ some q))
get_elem?-set [] i j v q h = ground (arith, h)
get_elem?-set (p ∷ ps) zero zero v q h = inl (refl, ground (arith, h))
get_elem?-set (p ∷ ps) zero (suc j) v q h = inr ((λ e. ground (arith, e)), h)
get_elem?-set (p ∷ ps) (suc i) zero v q h = inr ((λ e. ground (arith, e)), h)
get_elem?-set (p ∷ ps) (suc i) (suc j) v q h = elim (get_elem?-set ps i j v q h) [
  | inl here ↦ inl (ap (λ n. suc n) here.0, here.1)
  | inr there ↦ inr ((λ e. there.0 (omega (arith, e))), there.1)
]

-- A connection that may become ready, where no other is ready under its id.
pub set_alone :
    (ps : List Peer) (i : ℕ) (v : Peer)
    → IsUnique ps
    → ((k : ℕ) (q : Peer) → get_elem? ps k ≡ some q → IsReady q → q.id ≡ v.id → IsReady v → k ≡ i)
    → IsUnique (set ps i v)
set_alone ps i v u alone j k p q at at' rp rq same = elim (get_elem?-set ps i j v p at) [
  | inl (j_i, p_v) ↦ elim (get_elem?-set ps i k v q at') [
    | inl (k_i, q_v) ↦ j_i ∙ sym k_i
    | inr (off, old) ↦ absurd (
        off (
          alone k q old rq (sym same ∙ ap (λ x. x.id) p_v)
            (ap (λ x. is_ready_state x.state) (sym p_v) ∙ rp)))
  ]
  | inr (off, old) ↦ elim (get_elem?-set ps i k v q at') [
    | inl (k_i, q_v) ↦ absurd (
        off (
          alone j p old rp (same ∙ ap (λ x. x.id) q_v)
            (ap (λ x. is_ready_state x.state) (sym q_v) ∙ rq)))
    | inr (off', old') ↦ u j k p q old old' rp rq same
  ]
]

-- A connection that keeps its id and its state, or is not ready.
pub set_like :
    (ps : List Peer) (i : ℕ) (p v : Peer)
    → IsUnique ps
    → get_elem? ps i ≡ some p
    → (IsReady v → IsReady p × (p.id ≡ v.id))
    → IsUnique (set ps i v)
set_like ps i p v u at like =
    set_alone ps i v u
      (λ k q at' rq same rv. u k i q p at' at rq (like rv).0 (same ∙ sym (like rv).1))

pub find_peer-none :
    (id : ℕ) (ps : List Peer)
    → find_peer id ps ≡ none
    → (k : ℕ) (q : Peer) → get_elem? ps k ≡ some q
    → IsReady q
    → q.id ≢ id
unfolding find_peer
find_peer-none id [] h k q at rq same = ground (arith, at)
find_peer-none id (p ∷ ps) h zero q at rq same =
    let here : p ≡ q = ground (arith, at) in
    let found : is_ready_as id p ≡ true =
      subst (λ x. is_ready_as id x ≡ true) (sym here)
        (ground (arith, rq, ==-refl-of id q.id same)) in
    ground (arith, h, found)
find_peer-none id (p ∷ ps) h (suc k) q at rq same =
    find_peer-none id ps (ground (arith, h)) k q at rq same

pub find_peer-some :
    (id : ℕ) (ps : List Peer) (i : ℕ)
    → find_peer id ps ≡ some i
    → (p : Peer) × (get_elem? ps i ≡ some p) × IsReady p × (p.id ≡ id)
unfolding find_peer
find_peer-some id [] i h = ground (arith, h)
find_peer-some id (p ∷ ps) i h = elim (Bool-cases (is_ready_as id p)) [
  | inl here ↦
      let first : i ≡ 0 = ground (arith, h, here) in
      (p, ap (get_elem? (p ∷ ps)) first, ground (arith, here), ==→≡ p.id id (ground (arith, here)))
  | inr other ↦ elim (Option-cases (find_peer id ps)) [
    | inl nowhere ↦ ground (arith, h, other, nowhere)
    | inr (j, there) ↦
        let (q, at, rq, same) = find_peer-some id ps j there in
        let next_one : i ≡ suc j = ground (arith, h, other, there) in
        (q, ap (get_elem? (p ∷ ps)) next_one ∙ at, rq, same)
  ]
]

abbrev pub Unique : Run → Type 0
Unique (t, es) = IsUnique t.peers

abbrev pub Then : Bool × Run → Type 0
Then (b, r) = Unique r

pub drop_peer-Unique : (i : ℕ) (r : Run) → Unique r → Unique (drop_peer i r)
unfolding drop_peer
drop_peer-Unique i (t, es) u = known (get_elem? t.peers i) refl
  where
    known :
        (o : Option Peer)
        → get_elem? t.peers i ≡ o
        → Unique (elim o [ none ↦ (t, es) | some p ↦ drop_known i p (t, es) ])
    known none at = u
    known (some p) at = set_like t.peers i p (dropped p) u at (λ rv. ground (arith, rv))

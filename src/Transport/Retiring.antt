-- ===== src/Transport/Retiring.antt =====
-- The end of `Transport::poll` of src/net/transport.cpp, which takes connections out of the table.
use sententia.Prelude.{
  ℕ, zero, suc, ◌≡◌, ◌≢◌, refl, sym, ap, ◌∙◌, subst, Bool, true, false, if-elim, if◌then◌else◌,
  some, List, [], ◌∷◌, get_elem?, arith,
}
use sententia.Transport.{Peer}
use sententia.Transport.Unique.{IsReady, IsUnique}
use sententia.Transport.Sending.{is_retired, without_retired}

-- A connection that is not ready under the id of another one that is.
abbrev Apart : Peer → List Peer → Type 0
Apart p ps = (k : ℕ) (q : Peer) → get_elem? ps k ≡ some q → IsReady p → IsReady q → p.id ≢ q.id

cons-IsUnique : (p : Peer) (ps : List Peer) → Apart p ps → IsUnique ps → IsUnique (p ∷ ps)
cons-IsUnique p ps apart u zero zero x y at at' rx ry same = refl
cons-IsUnique p ps apart u zero (suc k) x y at at' rx ry same =
    let here : p ≡ x = ground (arith, at) in
    absurd (apart k y at' (subst IsReady (sym here) rx) ry (ap (λ z. z.id) here ∙ same))
cons-IsUnique p ps apart u (suc j) zero x y at at' rx ry same =
    let here : p ≡ y = ground (arith, at') in
    absurd (apart j x at (subst IsReady (sym here) ry) rx (ap (λ z. z.id) here ∙ sym same))
cons-IsUnique p ps apart u (suc j) (suc k) x y at at' rx ry same =
    ap (λ n. suc n) (u j k x y at at' rx ry same)

tail-IsUnique : (p : Peer) (ps : List Peer) → IsUnique (p ∷ ps) → IsUnique ps
tail-IsUnique p ps u j k x y at at' rx ry same =
    omega (arith, u (suc j) (suc k) x y at at' rx ry same)

-- What is left was there.
without_retired-old :
    (ps : List Peer) (k : ℕ) (q : Peer)
    → get_elem? (without_retired ps) k ≡ some q
    → (j : ℕ) × (get_elem? ps j ≡ some q)
unfolding without_retired
without_retired-old [] k q at = ground (arith, at)
without_retired-old (p ∷ ps) k q at = found (is_retired p) k (λ n. without_retired-old ps n q) at
  where
    found :
        (b : Bool) (k : ℕ)
        → ((n : ℕ)
            → get_elem? (without_retired ps) n ≡ some q
            → (j : ℕ) × (get_elem? ps j ≡ some q))
        → get_elem? (if b then without_retired ps else p ∷ without_retired ps) k ≡ some q
        → (j : ℕ) × (get_elem? (p ∷ ps) j ≡ some q)
    found true k old at = let (j, there) = old k at in (suc j, there)
    found false zero old at = (0, at)
    found false (suc k) old at = let (j, there) = old k at in (suc j, there)

pub without_retired-IsUnique : (ps : List Peer) → IsUnique ps → IsUnique (without_retired ps)
unfolding without_retired
without_retired-IsUnique [] u = u
without_retired-IsUnique (p ∷ ps) u =
    let rest = without_retired-IsUnique ps (tail-IsUnique p ps u) in
    if-elim IsUnique (is_retired p) (λ gone. rest)
      (λ stays. cons-IsUnique p (without_retired ps) apart rest)
  where
    apart : Apart p (without_retired ps)
    apart k q at rp rq same =
        let (j, there) = without_retired-old ps k q at in
        ground (arith, u 0 (suc j) p q refl there rp rq same)

-- ===== src/VersionChain/Compare.antt =====
-- src/version_chain.rs, `compare_chains`: how two histories of a package stand to each other.
use kademlia_packet_manager.Prelude.{
  ℕ, ◌-◌, ◌≡◌, ◌≢◌, ◌∙◌, refl, sym, ap, subst, Bool, true, false, List, [], ◌∷◌, ◌++◌, ◌&&◌, ◌||◌,
  not, holds, leb, if◌then◌else◌, length, take, drop, zero, suc, length-append, drop-length-append,
  and-true, and_intro, holds-true, list_discrete, ℕ_discrete, holds-yes, holds-no, Bool-cases,
  arith, inl, inr,
}
use kademlia_packet_manager.CloseNodes.{id_discrete}
use kademlia_packet_manager.Package.{Str, Version, VersionRecord, is_str}
use kademlia_packet_manager.VersionChain.{Record, Result, ok, err, empty_chain, different_package}

pub data ChainRelation : Type 0 where
  same : ChainRelation
  extends : ChainRelation
  rollback : ChainRelation
  fork : ChainRelation

-- The derived `PartialEq`.
unfoldable pub version_discrete : Discrete Version
unfolding ℕ_discrete
version_discrete a b = elim (ℕ_discrete a.major b.major) [
  | no n ↦ no (λ e. n (cc e))
  | yes p ↦ elim (ℕ_discrete a.minor b.minor) [
    | no n ↦ no (λ e. n (cc e))
    | yes q ↦ elim (ℕ_discrete a.patch b.patch) [
      | no n ↦ no (λ e. n (cc e))
      | yes r ↦ yes (λ i. record { major = p i; minor = q i; patch = r i })
    ]
  ]
]

unfoldable pub body_discrete : Discrete VersionRecord
unfolding list_discrete ℕ_discrete id_discrete version_discrete
body_discrete a b = elim (list_discrete ℕ_discrete a.tag b.tag) [
  | no n ↦ no (λ e. n (cc e))
  | yes p ↦ elim (list_discrete ℕ_discrete a.domain b.domain) [
    | no n ↦ no (λ e. n (cc e))
    | yes q ↦ elim (list_discrete ℕ_discrete a.package_name b.package_name) [
      | no n ↦ no (λ e. n (cc e))
      | yes r ↦ elim (version_discrete a.version b.version) [
        | no n ↦ no (λ e. n (cc e))
        | yes s ↦ elim (id_discrete a.blob_hash b.blob_hash) [
          | no n ↦ no (λ e. n (cc e))
          | yes t ↦ elim (id_discrete a.prev b.prev) [
            | no n ↦ no (λ e. n (cc e))
            | yes u ↦ yes (λ i. record {
              tag = p i;
              domain = q i;
              package_name = r i;
              version = s i;
              blob_hash = t i;
              prev = u i;
            })
          ]
        ]
      ]
    ]
  ]
]

unfoldable pub signed_discrete : Discrete Record
unfolding list_discrete ℕ_discrete body_discrete
signed_discrete a b = elim (body_discrete a.body b.body) [
  | no n ↦ no (λ e. n (cc e))
  | yes p ↦ elim (list_discrete ℕ_discrete a.sig b.sig) [
    | no n ↦ no (λ e. n (cc e))
    | yes q ↦ yes (λ i. record { body = p i; sig = q i })
  ]
]

abbrev pub is_chain : List Record → List Record → Bool
is_chain xs ys = holds (list_discrete signed_discrete xs ys)

-- `slice::ends_with`
unfoldable pub ends_with : List Record → List Record → Bool
unfolding list_discrete signed_discrete
ends_with xs ys = leb (length ys) (length xs) && is_chain (drop (length xs - length ys) xs) ys

unfoldable pub is_of_other : Str → Str → List Record → Bool
is_of_other domain package_name [] = false
is_of_other domain package_name (r ∷ rs) =
    if not (is_str r.body.domain domain) || not (is_str r.body.package_name package_name)
    then true
    else is_of_other domain package_name rs

unfoldable pub compare_chains : List Record → List Record → Result ChainRelation
unfolding ends_with is_of_other list_discrete signed_discrete
compare_chains [] proposed = err empty_chain
compare_chains (s ∷ ss) [] = err empty_chain
compare_chains (s ∷ ss) (p ∷ ps) =
    let stored = s ∷ ss in
    let proposed = p ∷ ps in
    if is_of_other s.body.domain s.body.package_name (stored ++ proposed)
    then err different_package
    else if is_chain stored proposed
    then ok same
    else if ends_with proposed stored
    then ok extends
    else if ends_with stored proposed
    then ok rollback
    else ok fork

-- The chain is records in front of the other one.
abbrev pub IsExtension : List Record → List Record → Type 0
IsExtension xs ys = (newer : List Record) × (xs ≡ newer ++ ys)

drop-append : (xs ys : List Record) → drop (length (xs ++ ys) - length ys) (xs ++ ys) ≡ ys
drop-append xs ys =
    let count : length (xs ++ ys) - length ys ≡ length xs = omega (arith, length-append xs ys) in
    rw count (drop-length-append xs ys)

take-drop : (n : ℕ) (xs : List Record) → take n xs ++ drop n xs ≡ xs
take-drop zero xs = refl
take-drop (suc n) [] = refl
take-drop (suc n) (x ∷ xs) = ap (λ l. x ∷ l) (take-drop n xs)

ends_with-true : (xs ys : List Record) → ends_with xs ys ≡ true → IsExtension xs ys
unfolding ends_with
ends_with-true xs ys e =
    let n = length xs - length ys in
    let (_, tail) = and-true (leb (length ys) (length xs)) (is_chain (drop n xs) ys) e in
    let at_end : drop n xs ≡ ys = holds-yes (list_discrete signed_discrete (drop n xs) ys) tail in
    (take n xs, sym (take-drop n xs) ∙ ap (λ l. take n xs ++ l) at_end)

ends_with-false : (xs ys : List Record) → ends_with xs ys ≡ false → ¬ IsExtension xs ys
unfolding ends_with
ends_with-false xs ys e (newer, split) =
    let shorter : leb (length ys) (length xs) ≡ true =
      ground (arith, ap length split, length-append newer ys) in
    let n = length xs - length ys in
    let at_end : drop n xs ≡ ys = rw split (drop-append newer ys) in
    let is_tail = holds-true (list_discrete signed_discrete (drop n xs) ys) at_end in
    let both : (leb (length ys) (length xs) && is_chain (drop n xs) ys) ≡ true =
      and_intro shorter is_tail in
    cc (both, e)

abbrev pub Related : ChainRelation → List Record → List Record → Type 0
Related same stored proposed = stored ≡ proposed
Related extends stored proposed = (stored ≢ proposed) × IsExtension proposed stored
Related rollback stored proposed = (stored ≢ proposed) × IsExtension stored proposed
Related fork stored proposed = (¬ IsExtension proposed stored) × (¬ IsExtension stored proposed)

-- A relation that `compare_chains` finds holds: equal chains, one that adds newer records to the other,
-- or chains of which neither continues the other.
pub compare_chains-Related :
    (relation : ChainRelation) (stored proposed : List Record)
    → compare_chains stored proposed ≡ ok relation
    → Related relation stored proposed
unfolding compare_chains
compare_chains-Related relation [] proposed e = cc
compare_chains-Related relation (s ∷ ss) [] e = cc
compare_chains-Related relation (s ∷ ss) (p ∷ ps) e =
    let stored : List Record = s ∷ ss in
    let proposed : List Record = p ∷ ps in
    elim (Bool-cases (is_of_other s.body.domain s.body.package_name (stored ++ proposed))) [
      | inl other ↦
          let found : compare_chains stored proposed ≡ err different_package =
            ground (arith, other) in
          cc (found, e)
      | inr one ↦ elim (Bool-cases (is_chain stored proposed)) [
        | inl equal ↦
            let found : compare_chains stored proposed ≡ ok same = ground (arith, one, equal) in
            let which : same ≡ relation = cc (found, e) in
            subst (λ r. Related r stored proposed) which
              (holds-yes (list_discrete signed_discrete stored proposed) equal)
        | inr unequal ↦
            let differ = holds-no (list_discrete signed_discrete stored proposed) unequal in
            elim (Bool-cases (ends_with proposed stored)) [
              | inl after ↦
                  let found : compare_chains stored proposed ≡ ok extends =
                    ground (arith, one, unequal, after) in
                  let which : extends ≡ relation = cc (found, e) in
                  subst (λ r. Related r stored proposed) which
                    (differ, ends_with-true proposed stored after)
              | inr not_after ↦ elim (Bool-cases (ends_with stored proposed)) [
                | inl before ↦
                    let found : compare_chains stored proposed ≡ ok rollback =
                      ground (arith, one, unequal, not_after, before) in
                    let which : rollback ≡ relation = cc (found, e) in
                    subst (λ r. Related r stored proposed) which
                      (differ, ends_with-true stored proposed before)
                | inr not_before ↦
                    let found : compare_chains stored proposed ≡ ok fork =
                      ground (arith, one, unequal, not_after, not_before) in
                    let which : fork ≡ relation = cc (found, e) in
                    subst (λ r. Related r stored proposed) which
                      (
                        ends_with-false proposed stored not_after,
                        ends_with-false stored proposed not_before,
                      )
              ]
            ]
      ]
    ]

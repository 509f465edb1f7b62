-- ===== src/Chain/SolProgram/Payer.antt =====
-- The payer of a Solana program call of chain/tx_sol.go stays the first account, through the merge
-- and the sort.
use Prim.Native.String.{String}
use mathlib.Core.List.{reverse, reverse-append}
use teenet_wallet.Base.{
  ℕ, ◌≡◌, refl, ap, sym, ◌∙◌, subst, inl, inr, some, List, [], ◌∷◌, ◌++◌, ◌==◌, string_eq, ltb,
  arith, Bool-cases,
}
use teenet_wallet.Chain.SolProgram.{
  AccountMeta, has_key, join, merge, merge_all, payer, program_account, collect, sink, sink_all,
  sort, group,
}
use teenet_wallet.Chain.SolProgram.Collecting.{completed, collect-completed}

-- An entry of the payer that signs and is writable comes first.
abbrev pub StartsWith : String → List AccountMeta → Type 0
StartsWith from accts =
    (x : AccountMeta) × (later : List AccountMeta) × (accts ≡ x ∷ later)
    × (x.pubkey ≡ from)
    × (group x ≡ 0)

group-join : (x a : AccountMeta) → group x ≡ 0 → group (join x a) ≡ 0
group-join x a e = ground arith

merge-StartsWith :
    (from : String) (a : AccountMeta) (accts : List AccountMeta)
    → StartsWith from accts
    → StartsWith from (merge a accts)
unfolding merge
merge-StartsWith from a accts (x, later, e, key, first) =
    subst (λ l. StartsWith from (merge a l)) (sym e)
      (elim (Bool-cases (x.pubkey == a.pubkey)) [
        | inl same ↦ rw (same) (join x a, later, refl, key, group-join x a first)
        | inr other ↦ rw (other) (x, merge a later, refl, key, first)
      ])

merge_all-StartsWith :
    (bytes : ℕ → List ℕ) (from : String) (accounts accts merged : List AccountMeta)
    → StartsWith from accts
    → merge_all bytes accounts accts ≡ some merged
    → StartsWith from merged
unfolding merge_all
merge_all-StartsWith bytes from [] accts merged s e = subst (StartsWith from) (cc) s
merge_all-StartsWith bytes from (a ∷ accounts) accts merged s e =
    merge_all-StartsWith bytes from accounts (merge a accts) merged
      (merge-StartsWith from a accts s) (ground arith)

completed-StartsWith :
    (from program : String) (merged : List AccountMeta)
    → StartsWith from merged
    → StartsWith from (completed program merged)
completed-StartsWith from program merged (x, later, e, key, first) =
    elim (Bool-cases (has_key program merged)) [
      | inl present ↦ rw (present) (x, later, e, key, first)
      | inr absent ↦ rw (absent) (
        x,
        later ++ program_account program ∷ [],
        ap (λ l. l ++ program_account program ∷ []) e,
        key,
        first,
      )
    ]

sink-last :
    (x y : AccountMeta) (before : List AccountMeta)
    → group y ≡ 0
    → (sunk : List AccountMeta) × (sink x (before ++ y ∷ []) ≡ sunk ++ y ∷ [])
unfolding sink
sink-last x y [] h = (x ∷ [], ground (arith, h))
sink-last x y (z ∷ before) h = elim (Bool-cases (ltb (group x) (group z))) [
  | inl lt ↦ let (sunk, e) = sink-last x y before h in (z ∷ sunk, rw (lt) (ap (λ l. z ∷ l) e))
  | inr ge ↦ (x ∷ (z ∷ before), rw (ge) refl)
]

sink_all-last :
    (y : AccountMeta) (before accts : List AccountMeta)
    → group y ≡ 0
    → (sunk : List AccountMeta) × (sink_all (before ++ y ∷ []) accts ≡ sunk ++ y ∷ [])
unfolding sink_all
sink_all-last y before [] h = (before, refl)
sink_all-last y before (x ∷ accts) h =
    let (sunk, e) = sink-last x y before h in
    let (all, later) = sink_all-last y sunk accts h in (all, ap (λ l. sink_all l accts) e ∙ later)

sort-StartsWith :
    (from : String) (accts : List AccountMeta)
    → StartsWith from accts
    → StartsWith from (sort accts)
unfolding sort sink_all sink
sort-StartsWith from accts (x, later, e, key, first) =
    let (sunk, s) = sink_all-last x [] later first in
    let turned : sort accts ≡ x ∷ reverse sunk =
      ap sort e ∙ ap reverse s ∙ reverse-append sunk (x ∷ []) in
    (x, reverse sunk, turned, key, first)

pub collect-StartsWith :
    (bytes : ℕ → List ℕ) (from program : String) (accounts accts : List AccountMeta)
    → collect bytes from program accounts ≡ some accts
    → StartsWith from (sort accts)
collect-StartsWith bytes from program accounts accts e =
    let (merged, m, same) = collect-completed bytes from program accounts accts e in
    let alone : StartsWith from (payer from ∷ []) = (payer from, [], refl, refl, refl) in
    sort-StartsWith from accts (
      subst (StartsWith from) (sym same) (
        completed-StartsWith from program merged
          (merge_all-StartsWith bytes from accounts _ merged alone m)))

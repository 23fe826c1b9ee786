-- ===== src/Varicode/Callsign/Special.antt =====
-- Both tables of the special calls agree.
use js8rs.Prelude.{
  ℕ, ◌+◌, ◌-◌, ◌≡◌, refl, sym, ap, ◌∙◌, Bool, true, false, ◌&&◌, ◌||◌, Option, none, some, List, [],
  ◌∷◌, length, map, get_elem?, ltb, leb, ◌==◌, is_ascii, to_ascii_uppercase, arith, inl, inr,
  Bool-cases, str_eq, str_eq_iff,
}
use js8rs.Varicode.Callsign.{nbasecall, basecalls, basecall_names, find_basecall, basecall}
use mathlib.Core.Option.{some-injective, none-ne-some}
use js8rs.Varicode.Callsign.Places.{and_true}

unfoldable listed : List (List ℕ × ℕ) → Bool
listed [] = true
listed ((key, value) ∷ table) =
    (ltb nbasecall value && elim (get_elem? basecall_names (value - (nbasecall + 1))) [
      | none ↦ false
      | some name ↦ str_eq name key
    ])
    && listed table

listed_table : listed basecalls ≡ true
unfolding listed basecalls basecall_names str_eq
listed_table = refl

named :
    (o : Option (List ℕ)) (key : List ℕ)
    → elim o [ none ↦ false | some name ↦ str_eq name key ] ≡ true
    → o ≡ some key
named none key h = ground arith
named (some name) key h = ap some ((str_eq_iff name key).0 h)

find_basecall-named :
    (table : List (List ℕ × ℕ)) (name : List ℕ) (n : ℕ)
    → listed table ≡ true
    → find_basecall table name ≡ some n
    → (ltb nbasecall n ≡ true) × (get_elem? basecall_names (n - (nbasecall + 1)) ≡ some name)
unfolding listed find_basecall
find_basecall-named [] name n h e = absurd (none-ne-some n e)
find_basecall-named ((key, value) ∷ table) name n h e =
    let (here, later) = and_true _ (listed table) h in
    let (above, entry) = and_true (ltb nbasecall value) _ here in
    elim (Bool-cases (str_eq key name)) [
      | inl hit ↦
          let same = some-injective value n (rw hit at e) in
          let own = (str_eq_iff key name).0 hit in
          (
            ap (λ v. ltb nbasecall v) (sym same) ∙ above,
            ap (λ v. get_elem? basecall_names (v - (nbasecall + 1))) (sym same)
                ∙ named (get_elem? basecall_names (value - (nbasecall + 1))) key entry
                ∙ ap some own,
          )
      | inr miss ↦ find_basecall-named table name n later (rw miss at e)
    ]

pub basecall-named :
    (bytes : List ℕ) (n : ℕ)
    → basecall bytes ≡ some n
    → (ltb nbasecall n ≡ true)
      × (get_elem? basecall_names (n - (nbasecall + 1)) ≡ some (map to_ascii_uppercase bytes))
unfolding basecall
basecall-named [] n e = absurd (none-ne-some n e)
basecall-named (first ∷ rest) n e =
    elim (Bool-cases (
      (first == b'@' || first == b'<')
      && (leb (length (first ∷ rest)) 10 && is_ascii (first ∷ rest)))) [
        | inl special ↦
            find_basecall-named basecalls (map to_ascii_uppercase (first ∷ rest)) n listed_table
              (rw special at e)
        | inr other ↦ absurd (none-ne-some n (rw other at e))
      ]

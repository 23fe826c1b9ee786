-- ===== src/Command/Table/Longest.antt =====
-- The narrowed search finds a longest command of the whole table.
use js8rs.Prelude.{
  ℕ, ◌+◌, ◌≤◌, ◌<◌, ◌≡◌, refl, sym, Bool, true, false, ◌&&◌, Option, none, some, List, [], ◌∷◌,
  length, get_elem?, ltb, to_ascii_uppercase, arith, Bool-cases, Option-cases, inl, inr, subst, ◌⊎◌,
  ◌∙◌,
}
use js8rs.Command.Kind.{contains_byte}
use js8rs.Command.Table.{
  CommandDef, commands, upper_at, candidates_by, command_candidates, starts_ignoring_case, stands,
  first_standing, find_command,
}
use js8rs.Rx.Session.Memory.{any}
use mathlib.Core.Option.{none-ne-some, some-injective}
use js8rs.Command.Table.Reach.{
  size_at, no_longer, descending, Reach, Reached, candidates_descending, commands-Reached,
}

-- What the narrowed search may give: nothing where no command of the table stands, or a command of
-- the table that stands there, and none of the table that stands there is longer.
abbrev pub IsLongest : List ℕ → List CommandDef → Option CommandDef → Type 0
IsLongest bytes ds none = any (λ d. stands d bytes) ds ≡ false
IsLongest bytes ds (some def) =
    ((i : ℕ) × (get_elem? ds i ≡ some def))
    × (stands def bytes ≡ true)
    × (any (λ d. stands d bytes && ltb (length def.text) (length d.text)) ds ≡ false)

abbrev listed : ℕ → List ℕ → Bool
listed i is = contains_byte i is

listed_cases : (i j : ℕ) (is : List ℕ) → listed i (j ∷ is) ≡ true → (j ≡ i) ⊎ (listed i is ≡ true)
unfolding contains_byte
listed_cases i j is c = ground arith

-- How the search takes its first index.
data Step (bytes : List ℕ) (j : ℕ) (is : List ℕ) : Type 0 where
  skips :
      get_elem? commands j ≡ none
      → first_standing (j ∷ is) bytes ≡ first_standing is bytes
      → Step bytes j is
  passes :
      (d : CommandDef)
      → get_elem? commands j ≡ some d
      → stands d bytes ≡ false
      → first_standing (j ∷ is) bytes ≡ first_standing is bytes
      → Step bytes j is
  takes :
      (d : CommandDef)
      → get_elem? commands j ≡ some d
      → stands d bytes ≡ true
      → first_standing (j ∷ is) bytes ≡ some d
      → Step bytes j is

step : (bytes : List ℕ) (j : ℕ) (is : List ℕ) → Step bytes j is
unfolding first_standing
step bytes j is = elim (Option-cases (get_elem? commands j)) [
  | inl e ↦ skips e (rw (first_standing, e) refl)
  | inr (d, e) ↦ elim (Bool-cases (stands d bytes)) [
    | inl h ↦ takes d e h (rw (first_standing, e, h) refl)
    | inr h ↦ passes d e h (rw (first_standing, e, h) refl)
  ]
]

no_longer_at :
    (n : ℕ) (is : List ℕ) (i : ℕ)
    → no_longer n is ≡ true
    → contains_byte i is ≡ true
    → size_at i ≤ n
unfolding contains_byte
no_longer_at n [] i h c = ground arith
no_longer_at n (j ∷ is) i h c = elim (listed_cases i j is c) [
  | inl same ↦ subst (λ k. size_at k ≤ n) same (ground (arith, h))
  | inr later ↦ no_longer_at n is i (ground (arith, h)) later
]

shorter_behind :
    (i j : ℕ) (is : List ℕ) {d d' : CommandDef}
    → get_elem? commands j ≡ some d'
    → get_elem? commands i ≡ some d
    → descending (j ∷ is) ≡ true
    → listed i is ≡ true
    → length d.text ≤ length d'.text
unfolding commands
shorter_behind i j is e named desc later =
    let bound : no_longer (size_at j) is ≡ true = ground (arith, desc) in
    let le = no_longer_at (size_at j) is i bound later in rw (e, named) at le

-- A candidate that stands is not passed over, and what is found is no shorter.
first_standing_found :
    (bytes is : List ℕ) (i : ℕ) (d : CommandDef)
    → descending is ≡ true
    → get_elem? commands i ≡ some d
    → listed i is ≡ true
    → stands d bytes ≡ true
    → (def : CommandDef) × (first_standing is bytes ≡ some def)
      × (stands def bytes ≡ true)
      × (length d.text ≤ length def.text)
first_standing_found bytes [] i d desc named c h = unfold contains_byte in ground arith
first_standing_found bytes (j ∷ is) i d desc named c h =
    let sorted : descending is ≡ true = ground (arith, desc) in
    elim (listed_cases i j is c) [
      | inl same ↦
          let named' : get_elem? commands j ≡ some d = rw same named in
          elim (step bytes j is) [
            | skips e _ ↦ absurd (none-ne-some d (sym e ∙ named'))
            | passes d' e low _ ↦
                let equal = some-injective d' d (sym e ∙ named') in
                let low' : stands d bytes ≡ false = rw (sym equal) low in
                absurd (ground (arith, h, low'))
            | takes d' e up found ↦
                let equal = some-injective d' d (sym e ∙ named') in
                (d', found, up, rw equal (omega arith))
          ]
      | inr later ↦
          let (def, found, up, le) = first_standing_found bytes is i d sorted named later h in
          elim (step bytes j is) [
            | skips e skip ↦ (def, skip ∙ found, up, le)
            | passes d' e low skip ↦ (def, skip ∙ found, up, le)
            | takes d' e up' found' ↦ (d', found', up', shorter_behind i j is e named desc later)
          ]
    ]

any_none :
    (P : CommandDef → Bool) (i : ℕ) (ds : List CommandDef)
    → Reached i ds
    → ((j : ℕ) (d : CommandDef) → Reach j d → P d ≡ true → ⊥)
    → any P ds ≡ false
any_none P i [] h never = refl
any_none P i (d ∷ ds) (here, h) never = elim (Bool-cases (P d)) [
  | inl e ↦ absurd (never i d here e)
  | inr e ↦ rw e (any_none P (i + 1) ds h never)
]

stands_cased :
    (d : CommandDef) (bytes : List ℕ)
    → stands d bytes ≡ true
    → starts_ignoring_case d.text bytes ≡ true
unfolding stands
stands_cased d bytes h = ground (arith, h)

-- A command of the table that stands at a place is found, or a longer one.
standing :
    (bytes : List ℕ) (j : ℕ) (d : CommandDef)
    → Reach j d
    → stands d bytes ≡ true
    → (def : CommandDef) × (first_standing (command_candidates bytes) bytes ≡ some def)
      × (stands def bytes ≡ true)
      × (length d.text ≤ length def.text)
standing bytes j d (named, reach) h =
    first_standing_found bytes (command_candidates bytes) j d
      (unfold command_candidates in
        candidates_descending (upper_at bytes 0) (upper_at bytes 1) (upper_at bytes 4))
      named (reach bytes (stands_cased d bytes h)) h

-- What is found is a command of the table that stands.
first_standing-listed :
    (bytes is : List ℕ) (def : CommandDef)
    → first_standing is bytes ≡ some def
    → ((i : ℕ) × (get_elem? commands i ≡ some def)) × (stands def bytes ≡ true)
first_standing-listed bytes [] def e = unfold first_standing in absurd (none-ne-some def e)
first_standing-listed bytes (j ∷ is) def e = elim (step bytes j is) [
  | skips _ skip ↦ first_standing-listed bytes is def (sym skip ∙ e)
  | passes d _ _ skip ↦ first_standing-listed bytes is def (sym skip ∙ e)
  | takes d named up found ↦
      subst (λ t. ((i : ℕ) × (get_elem? commands i ≡ some t)) × (stands t bytes ≡ true))
        (some-injective d def (sym found ∙ e)) ((j, named), up)
]

not_longer :
    (bytes : List ℕ) (j : ℕ) (d def : CommandDef)
    → Reach j d
    → first_standing (command_candidates bytes) bytes ≡ some def
    → (stands d bytes && ltb (length def.text) (length d.text)) ≡ true
    → ⊥
not_longer bytes j d def r e h =
    let up : stands d bytes ≡ true = ground (arith, h) in
    let longer : length def.text < length d.text = ground (arith, h) in
    let (def', found, _, le) = standing bytes j d r up in
    let same = some-injective def' def (sym found ∙ e) in
    let le' = rw same at le in omega (arith, longer, le')

nothing_at_end : (j : ℕ) (d : CommandDef) → Reach j d → stands d [] ≡ true → ⊥
unfolding command_candidates candidates_by first_standing to_ascii_uppercase
nothing_at_end j d r h = let (def, found, _, _) = standing [] j d r h in none-ne-some def found

-- The search over the candidates of the first bytes gives a command of the table that stands at the
-- place, and none of the whole table that stands there is longer; it gives nothing exactly where no
-- command of the table stands.
pub find_command-IsLongest : (bytes : List ℕ) → IsLongest bytes commands (find_command bytes)
unfolding find_command
find_command-IsLongest [] = any_none (λ d. stands d []) 0 commands commands-Reached nothing_at_end
find_command-IsLongest (b ∷ bs) =
    let bytes = b ∷ bs in
    elim (Option-cases (first_standing (command_candidates bytes) bytes)) [
      | inl e ↦ subst (IsLongest bytes commands) (sym e) (
          any_none (λ d. stands d bytes) 0 commands commands-Reached
            (λ j d r h.
              let (def, found, _, _) = standing bytes j d r h in none-ne-some def (sym e ∙ found)))
      | inr (def, e) ↦ subst (IsLongest bytes commands) (sym e) (
        (first_standing-listed bytes (command_candidates bytes) def e).0,
        (first_standing-listed bytes (command_candidates bytes) def e).1,
        any_none (λ d. stands d bytes && ltb (length def.text) (length d.text)) 0 commands
            commands-Reached (λ j d r h. not_longer bytes j d def r e h),
      )
    ]

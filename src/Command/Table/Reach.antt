-- ===== src/Command/Table/Reach.antt =====
-- Every command of the table is a candidate where it stands, and candidates come longest first.
use js8rs.Prelude.{
  ℕ, zero, suc, ◌+◌, ◌<◌, ◌≡◌, refl, Bool, true, ◌&&◌, none, some, List, [], ◌∷◌, length, get_or,
  get_elem?, ltb, leb, arith,
}
use js8rs.Command.Kind.{contains_byte}
use js8rs.Command.Table.{
  CommandDef, commands, upper_at, candidates_by, command_candidates, starts_ignoring_case,
}

-- The length of the name with this index.
abbrev pub size_at : ℕ → ℕ
size_at index = elim (get_elem? commands index) [ none ↦ 0 | some def ↦ length def.text ]

abbrev pub no_longer : ℕ → List ℕ → Bool
no_longer n [] = true
no_longer n (index ∷ indices) = leb (size_at index) n && no_longer n indices

-- Longer names first.
abbrev pub descending : List ℕ → Bool
descending [] = true
descending (index ∷ indices) = no_longer (size_at index) indices && descending indices

upper_of :
    (name bytes : List ℕ) (i : ℕ)
    → starts_ignoring_case name bytes ≡ true
    → i < length name
    → upper_at bytes i ≡ get_or name i 0
unfolding starts_ignoring_case
upper_of [] bytes i h lt = absurd (omega arith)
upper_of (c ∷ name) [] i h lt = ground arith
upper_of (c ∷ name) (b ∷ bytes) zero h lt = ground arith
upper_of (c ∷ name) (b ∷ bytes) (suc i) h lt = upper_of name bytes i (ground arith) (omega arith)

-- Where the command with an index stands, the index is a candidate.
abbrev pub Reach : ℕ → CommandDef → Type 0
Reach i d =
    (get_elem? commands i ≡ some d)
    × ((bytes : List ℕ)
        → starts_ignoring_case d.text bytes ≡ true
        → contains_byte i (command_candidates bytes) ≡ true)

abbrev pub Reached : ℕ → List CommandDef → Type 0
Reached i [] = Unit {0}
Reached i (d ∷ ds) = Reach i d × Reached (i + 1) ds

by_two :
    (i : ℕ) (d : CommandDef)
    → get_elem? commands i ≡ some d
    → ltb 1 (length d.text) ≡ true
    → ((u : ℕ) → contains_byte i (candidates_by (get_or d.text 0 0) (get_or d.text 1 0) u) ≡ true)
    → Reach i d
unfolding command_candidates
by_two i d named long h = (
  named,
  λ bytes starts.
      rw
        (
          upper_of d.text bytes 0 starts (ground arith),
          upper_of d.text bytes 1 starts (ground arith),
        )
        (h (upper_at bytes 4)),
)

by_five :
    (i : ℕ) (d : CommandDef)
    → get_elem? commands i ≡ some d
    → ltb 4 (length d.text) ≡ true
    → contains_byte i (candidates_by (get_or d.text 0 0) (get_or d.text 1 0) (get_or d.text 4 0))
      ≡ true
    → Reach i d
unfolding command_candidates
by_five i d named long h = (
  named,
  λ bytes starts.
      rw
        (
          upper_of d.text bytes 0 starts (ground arith),
          upper_of d.text bytes 1 starts (ground arith),
          upper_of d.text bytes 4 starts (ground arith),
        )
        h,
)

pub candidates_descending : (a b c : ℕ) → descending (candidates_by a b c) ≡ true
unfolding candidates_by commands
candidates_descending a b c = ground arith

pub commands-Reached : Reached 0 commands
unfolding candidates_by contains_byte commands
commands-Reached = (
  by_two _ _ refl refl (λ u. refl),
  (
    by_two _ _ refl refl (λ u. refl),
    (
      by_two _ _ refl refl (λ u. refl),
      (
        by_two _ _ refl refl (λ u. refl),
        (
          by_two _ _ refl refl (λ u. refl),
          (
            by_two _ _ refl refl (λ u. refl),
            (
              by_two _ _ refl refl (λ u. refl),
              (
                by_two _ _ refl refl (λ u. refl),
                (
                  by_five _ _ refl refl refl,
                  (
                    by_two _ _ refl refl (λ u. refl),
                    (
                      by_five _ _ refl refl refl,
                      (
                        by_two _ _ refl refl (λ u. refl),
                        (
                          by_two _ _ refl refl (λ u. refl),
                          (
                            by_two _ _ refl refl (λ u. refl),
                            (
                              by_two _ _ refl refl (λ u. refl),
                              (
                                by_two _ _ refl refl (λ u. refl),
                                (
                                  by_two _ _ refl refl (λ u. refl),
                                  (
                                    by_five _ _ refl refl refl,
                                    (
                                      by_two _ _ refl refl (λ u. refl),
                                      (
                                        by_two _ _ refl refl (λ u. refl),
                                        (
                                          by_two _ _ refl refl (λ u. refl),
                                          (
                                            by_two _ _ refl refl (λ u. refl),
                                            (
                                              by_two _ _ refl refl (λ u. refl),
                                              (
                                                by_two _ _ refl refl (λ u. refl),
                                                (
                                                  by_two _ _ refl refl (λ u. refl),
                                                  (
                                                    by_two _ _ refl refl (λ u. refl),
                                                    (
                                                      by_two _ _ refl refl (λ u. refl),
                                                      (
                                                        by_two _ _ refl refl (λ u. refl),
                                                        (
                                                          by_two _ _ refl refl (λ u. refl),
                                                          (
                                                            by_two _ _ refl refl (λ u. refl),
                                                            (
                                                            by_two _ _ refl refl (λ u. refl),
                                                            (
                                                            by_two _ _ refl refl (λ u. refl),
                                                            (
                                                            by_two _ _ refl refl (λ u. refl),
                                                            (
                                                            by_two _ _ refl refl (λ u. refl),
                                                            (
                                                            by_two _ _ refl refl (λ u. refl),
                                                            (
                                                            by_two _ _ refl refl (λ u. refl),
                                                            (
                                                            by_two _ _ refl refl (λ u. refl),
                                                            (
                                                            by_two _ _ refl refl (λ u. refl),
                                                            (
                                                            by_two _ _ refl refl (λ u. refl),
                                                            (
                                                            by_two _ _ refl refl (λ u. refl),
                                                            (
                                                            by_two _ _ refl refl (λ u. refl),
                                                            (by_five _ _ refl refl refl, tt),
                                                            ),
                                                            ),
                                                            ),
                                                            ),
                                                            ),
                                                            ),
                                                            ),
                                                            ),
                                                            ),
                                                            ),
                                                            ),
                                                          ),
                                                        ),
                                                      ),
                                                    ),
                                                  ),
                                                ),
                                              ),
                                            ),
                                          ),
                                        ),
                                      ),
                                    ),
                                  ),
                                ),
                              ),
                            ),
                          ),
                        ),
                      ),
                    ),
                  ),
                ),
              ),
            ),
          ),
        ),
      ),
    ),
  ),
)

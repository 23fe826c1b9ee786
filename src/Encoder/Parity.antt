-- ===== src/Encoder/Parity.antt =====
-- src/internal/local_routines.rs: the parity matrix, built of its rows in hexadecimal digits.
use js8rs.Prelude.{
  ℕ, ◌+◌, ◌-◌, List, [], ◌∷◌, ◌&&◌, codes, map, leb, ◌==◌, if◌then◌else◌, bit_and, bit_or, ◌<<<◌,
}

abbrev pub parity_cols : ℕ
parity_cols = 87

-- The digits of the table alone occur; another character stops the build of the program.
unfoldable pub hex_nibble : ℕ → ℕ
hex_nibble c =
    if leb b'0' c && leb c b'9'
    then c - b'0'
    else if leb b'a' c && leb c b'f'
    then c - b'a' + 10
    else if leb b'A' c && leb c b'F'
    then c - b'A' + 10
    else 0

-- The bits of one digit, from the highest, into the row; the row and the column behind them.
unfoldable pub mask_loop : ℕ → List ℕ → ℕ → ℕ → ℕ × ℕ
mask_loop v [] col row = (row, col)
mask_loop v (mask ∷ masks) col row =
    let next =
      mask_loop v masks (col + 1)
        (if bit_and v mask == 0 then row else bit_or row (1 <<< (127 - col))) in
    if leb parity_cols col then (row, col) else next

unfoldable pub digit_loop : List ℕ → ℕ → ℕ → ℕ
digit_loop [] col row = row
digit_loop (c ∷ cs) col row =
    let (row', col') = mask_loop (hex_nibble c) (8 ∷ 4 ∷ 2 ∷ 1 ∷ []) col row in
    let next = digit_loop cs col' row' in if leb parity_cols col' then row' else next

unfoldable pub parity_data : List (List ℕ)
parity_data =
    codes "23bba830e23b6b6f50982e"
    ∷ codes "1f8e55da218c5df3309052"
    ∷ codes "ca7b3217cd92bd59a5ae20"
    ∷ codes "56f78313537d0f4382964e"
    ∷ codes "6be396b5e2e819e373340c"
    ∷ codes "293548a138858328af4210"
    ∷ codes "cb6c6afcdc28bb3f7c6e86"
    ∷ codes "3f2a86f5c5bd225c961150"
    ∷ codes "849dd2d63673481860f62c"
    ∷ codes "56cdaec6e7ae14b43feeee"
    ∷ codes "04ef5cfa3766ba778f45a4"
    ∷ codes "c525ae4bd4f627320a3974"
    ∷ codes "41fd9520b2e4abeb2f989c"
    ∷ codes "7fb36c24085a34d8c1dbc4"
    ∷ codes "40fc3e44bb7d2bb2756e44"
    ∷ codes "d38ab0a1d2e52a8ec3bc76"
    ∷ codes "3d0f929ef3949bd84d4734"
    ∷ codes "45d3814f504064f80549ae"
    ∷ codes "f14dbf263825d0bd04b05e"
    ∷ codes "db714f8f64e8ac7af1a76e"
    ∷ codes "8d0274de71e7c1a8055eb0"
    ∷ codes "51f81573dd4049b082de14"
    ∷ codes "d8f937f31822e57c562370"
    ∷ codes "b6537f417e61d1a7085336"
    ∷ codes "ecbd7c73b9cd34c3720c8a"
    ∷ codes "3d188ea477f6fa41317a4e"
    ∷ codes "1ac4672b549cd6dba79bcc"
    ∷ codes "a377253773ea678367c3f6"
    ∷ codes "0dbd816fba1543f721dc72"
    ∷ codes "ca4186dd44c3121565cf5c"
    ∷ codes "29c29dba9c545e267762fe"
    ∷ codes "1616d78018d0b4745ca0f2"
    ∷ codes "fe37802941d66dde02b99c"
    ∷ codes "a9fa8e50bcb032c85e3304"
    ∷ codes "83f640f1a48a8ebc0443ea"
    ∷ codes "3776af54ccfbae916afde6"
    ∷ codes "a8fc906976c35669e79ce0"
    ∷ codes "f08a91fb2e1f78290619a8"
    ∷ codes "cc9da55fe046d0cb3a770c"
    ∷ codes "d36d662a69ae24b74dcbd8"
    ∷ codes "40907b01280f03c0323946"
    ∷ codes "d037db825175d851f3af00"
    ∷ codes "1bf1490607c54032660ede"
    ∷ codes "0af7723161ec223080be86"
    ∷ codes "eca9afa0f6b01d92305edc"
    ∷ codes "7a8dec79a51e8ac5388022"
    ∷ codes "9059dfa2bb20ef7ef73ad4"
    ∷ codes "6abb212d9739dfc02580f2"
    ∷ codes "f6ad4824b87c80ebfce466"
    ∷ codes "d747bfc5fd65ef70fbd9bc"
    ∷ codes "612f63acc025b6ab476f7c"
    ∷ codes "05209a0abb530b9e7e34b0"
    ∷ codes "45b7ab6242b77474d9f11a"
    ∷ codes "6c280d2a0523d9c4bc5946"
    ∷ codes "f1627701a2d692fd9449e6"
    ∷ codes "8d9071b7e7a6a2eed6965e"
    ∷ codes "bf4f56e073271f6ab4bf80"
    ∷ codes "c0fc3ec4fb7d2bb2756644"
    ∷ codes "57da6d13cb96a7689b2790"
    ∷ codes "a9fa2eefa6f8796a355772"
    ∷ codes "164cc861bdd803c547f2ac"
    ∷ codes "cc6de59755420925f90ed2"
    ∷ codes "a0c0033a52ab6299802fd2"
    ∷ codes "b274db8abd3c6f396ea356"
    ∷ codes "97d4169cb33e7435718d90"
    ∷ codes "81cfc6f18c35b1e1f17114"
    ∷ codes "481a2a0df8a23583f82d6c"
    ∷ codes "081c29a10d468ccdbcecb6"
    ∷ codes "2c4142bf42b01e71076acc"
    ∷ codes "a6573f3dc8b16c9d19f746"
    ∷ codes "c87af9a5d5206abca532a8"
    ∷ codes "012dee2198eba82b19a1da"
    ∷ codes "b1ca4ea2e3d173bad4379c"
    ∷ codes "b33ec97be83ce413f9acc8"
    ∷ codes "5b0f7742bca86b8012609a"
    ∷ codes "37d8e0af9258b9e8c5f9b2"
    ∷ codes "35ad3fb0faeb5f1b0c30dc"
    ∷ codes "6114e08483043fd3f38a8a"
    ∷ codes "cd921fdf59e882683763f6"
    ∷ codes "95e45ecd0135aca9d6e6ae"
    ∷ codes "2e547dd7a05f6597aac516"
    ∷ codes "14cd0f642fc0c5fe3a65ca"
    ∷ codes "3a0a1dfd7eee29c2e827e0"
    ∷ codes "c8b5dffc335095dcdcaf2a"
    ∷ codes "3dd01a59d86310743ec752"
    ∷ codes "8abdb889efbe39a510a118"
    ∷ codes "3f231f212055371cf3e2a2"
    ∷ []

unfoldable pub parity_matrix : List ℕ
parity_matrix = map (λ digits. digit_loop digits 0 0) parity_data

-- ===== src/DecodedText/Shapes.antt =====
-- The fields of a classified frame agree with its type.
use js8rs.Prelude.{
  ℕ, ◌≡◌, refl, Bool, true, false, ◌||◌, ◌&&◌, not, Option, none, some, List, [], ◌∷◌, length, ltb,
  ◌==◌, if◌then◌else◌, arith, Bool-cases, Option-cases, inl, inr, trim, ◌⊎◌, subst,
}
use js8rs.Protocol.{
  Submode, FrameFlags, FrameType, frame_code, frame_unknown, frame_data, frame_heartbeat,
  frame_compound, frame_compound_directed, frame_directed, flags_contains, flags_data,
}
use js8rs.Varicode.Compound.{not_a_frame}
use js8rs.Varicode.Jsc.{Dictionary}
use js8rs.Varicode.Huffman.{Table}
use js8rs.Varicode.DataFrames.{unpack_fast_data_message, unpack_data_message}
use js8rs.Varicode.Messages.{
  HeartbeatMessage, CompoundMessage, DirectedMessage, unpack_heartbeat_message, heartbeat_message,
  unpack_compound_message, compound_message, unpack_directed_message, directed_message,
}
use js8rs.Command.Kind.{is_empty}
use mathlib.Core.Option.{none-ne-some, some-injective}
use js8rs.DecodedText.{
  ParsedFrame, Attempt, panics, fails, unpacks, or_else, result, data_flagged, with_data,
  with_compound, with_heartbeat, with_directed, unparsed, attempts, parse_frame,
  try_unpack_fast_data, try_unpack_data, try_unpack_heartbeat, try_unpack_compound,
  try_unpack_directed, type_or_unknown,
}

abbrev pub is_type : ParsedFrame → FrameType → Bool
is_type f t = frame_code f.frame_type == frame_code t

-- The frame keeps what it was made of, is a heartbeat or has directed parts exactly when its type
-- says so, and is data or unknown when its flags say data.
pub record IsConsistent (encoded : List ℕ) (flags : FrameFlags) (submode : Submode)
    (f : ParsedFrame) : Type 0 where
  pub keeps_encoded : f.encoded ≡ encoded
  pub keeps_flags : f.flags ≡ flags
  pub keeps_submode : f.submode ≡ submode
  pub heartbeats : f.is_heartbeat ≡ is_type f frame_heartbeat
  pub directs :
      not (is_empty f.directed) ≡ (is_type f frame_directed || is_type f frame_compound_directed)
  pub datas :
      (flags_contains flags flags_data && not (is_type f frame_unknown || is_type f frame_data))
      ≡ false

type_or_unknown_heartbeat : type_or_unknown 0 ≡ frame_heartbeat
unfolding type_or_unknown
type_or_unknown_heartbeat = refl

type_or_unknown_compound : type_or_unknown 1 ≡ frame_compound
unfolding type_or_unknown
type_or_unknown_compound = refl

type_or_unknown_compound_directed : type_or_unknown 2 ≡ frame_compound_directed
unfolding type_or_unknown
type_or_unknown_compound_directed = refl

type_or_unknown_directed : type_or_unknown 3 ≡ frame_directed
unfolding type_or_unknown
type_or_unknown_directed = refl

-- The types of the messages that the unpackers give.
heartbeat-ty :
    (text : List ℕ) (m : HeartbeatMessage) → unpack_heartbeat_message text ≡ some m → m.ty ≡ 0
unfolding unpack_heartbeat_message heartbeat_message
heartbeat-ty text m e = ground arith

compound-ty :
    (text : List ℕ) (m : CompoundMessage)
    → unpack_compound_message text ≡ some m
    → (m.ty ≡ 1) ⊎ (m.ty ≡ 2)
unfolding unpack_compound_message compound_message
compound-ty text m e = ground arith

directed-ty :
    (text : List ℕ) (m : DirectedMessage) → unpack_directed_message text ≡ some m → m.ty ≡ 3
unfolding unpack_directed_message directed_message
directed-ty text m e = ground arith

module _ (encoded : List ℕ) (flags : FrameFlags) (submode : Submode) where
  abbrev start : ParsedFrame
  start = unparsed encoded flags submode

  -- What an attempt may give.
  abbrev Sound : Attempt → Type 0
  Sound panics = Unit {0}
  Sound fails = Unit {0}
  Sound (unpacks f) = IsConsistent encoded flags submode f

  Sound-or_else : (a b : Attempt) → Sound a → Sound b → Sound (or_else a b)
  Sound-or_else panics b h k = tt
  Sound-or_else fails b h k = k
  Sound-or_else (unpacks f) b h k = h

  start-IsConsistent : IsConsistent encoded flags submode start
  unfolding unparsed is_empty frame_code
  start-IsConsistent = record {
    keeps_encoded = refl;
    keeps_flags = refl;
    keeps_submode = refl;
    heartbeats = refl;
    directs = refl;
    datas = ground arith;
  }

  Sound-with_data : (text : Option (List ℕ)) → Sound (with_data start text)
  unfolding unparsed is_empty frame_code
  Sound-with_data none = tt
  Sound-with_data (some []) = tt
  Sound-with_data (some (c ∷ s)) = record {
    keeps_encoded = refl;
    keeps_flags = refl;
    keeps_submode = refl;
    heartbeats = refl;
    directs = refl;
    datas = ground arith;
  }

  Sound-with_heartbeat :
      (m : HeartbeatMessage)
      → flags_contains flags flags_data ≡ false
      → m.ty ≡ 0
      → Sound (with_heartbeat start (some m))
  unfolding with_heartbeat unparsed is_empty frame_code
  Sound-with_heartbeat m plain ty = elim (Bool-cases (ltb (length m.parts) 2)) [
    | inl e ↦ rw e tt
    | inr e ↦
        rw (e, ty, type_or_unknown_heartbeat)
          (record {
            keeps_encoded = refl;
            keeps_flags = refl;
            keeps_submode = refl;
            heartbeats = refl;
            directs = refl;
            datas = ground (arith, plain);
          })
  ]

  Sound-with_directed :
      (m : DirectedMessage)
      → flags_contains flags flags_data ≡ false
      → m.ty ≡ 3
      → Sound (with_directed start (some m))
  unfolding with_directed unparsed frame_code
  Sound-with_directed m plain ty = elim (Bool-cases (is_empty m.parts)) [
    | inl e ↦ rw e tt
    | inr e ↦
        rw (e, ty, type_or_unknown_directed)
          (record {
            keeps_encoded = refl;
            keeps_flags = refl;
            keeps_submode = refl;
            heartbeats = refl;
            directs = rw e refl;
            datas = ground (arith, plain);
          })
  ]

  Sound-with_compound :
      (m : CompoundMessage) → (m.ty ≡ 1) ⊎ (m.ty ≡ 2) → Sound (with_compound start (some m))
  unfolding with_compound unparsed frame_code is_empty
  Sound-with_compound m (inl ty) =
      elim (Bool-cases (ltb (length m.parts) 2 || flags_contains flags flags_data)) [
        | inl e ↦ rw e tt
        | inr e ↦
            rw (e, ty, type_or_unknown_compound)
              (record {
                keeps_encoded = refl;
                keeps_flags = refl;
                keeps_submode = refl;
                heartbeats = refl;
                directs = refl;
                datas = ground (arith, e);
              })
      ]
  Sound-with_compound m (inr ty) =
      elim (Bool-cases (ltb (length m.parts) 2 || flags_contains flags flags_data)) [
        | inl e ↦ rw e tt
        | inr e ↦
            rw (e, ty, type_or_unknown_compound_directed)
              (record {
                keeps_encoded = refl;
                keeps_flags = refl;
                keeps_submode = refl;
                heartbeats = refl;
                directs = refl;
                datas = ground (arith, e);
              })
      ]

  Sound-heartbeat : (m : List ℕ) → Sound (try_unpack_heartbeat start m)
  unfolding try_unpack_heartbeat with_heartbeat unparsed
  Sound-heartbeat m = elim (Bool-cases (flags_contains flags flags_data)) [
    | inl e ↦ rw e tt
    | inr e ↦ elim (Option-cases (unpack_heartbeat_message m)) [
      | inl none_found ↦ rw (e, none_found) tt
      | inr (h, found) ↦ rw (e, found) (Sound-with_heartbeat h e (heartbeat-ty m h found))
    ]
  ]

  Sound-compound : (m : List ℕ) → Sound (try_unpack_compound start m)
  unfolding try_unpack_compound with_compound unparsed
  Sound-compound m = elim (Option-cases (unpack_compound_message m)) [
    | inl none_found ↦ rw none_found tt
    | inr (c, found) ↦ rw found (Sound-with_compound c (compound-ty m c found))
  ]

  Sound-directed : (m : List ℕ) → Sound (try_unpack_directed start m)
  unfolding try_unpack_directed with_directed unparsed
  Sound-directed m = elim (Bool-cases (flags_contains flags flags_data)) [
    | inl e ↦ rw e tt
    | inr e ↦ elim (Option-cases (unpack_directed_message m)) [
      | inl none_found ↦ rw (e, none_found) tt
      | inr (d, found) ↦ rw (e, found) (Sound-with_directed d e (directed-ty m d found))
    ]
  ]

  Sound-if : (b : Bool) (a : Attempt) → Sound a → Sound (if b then fails else a)
  Sound-if true a h = tt
  Sound-if false a h = h

  Sound-result :
      {f : ParsedFrame} (a : Attempt)
      → Sound a
      → result start a ≡ some f
      → IsConsistent encoded flags submode f
  Sound-result panics h e = absurd (none-ne-some _ e)
  Sound-result fails h e =
      subst (IsConsistent encoded flags submode) (some-injective _ _ e) start-IsConsistent
  Sound-result (unpacks g) h e = subst (IsConsistent encoded flags submode) (some-injective _ _ e) h

module _ (dictionary : Dictionary) (entries : Table) where
  Sound-attempts :
      (encoded : List ℕ) (flags : FrameFlags) (submode : Submode) (m : List ℕ)
      → Sound encoded flags submode (attempts dictionary entries (unparsed encoded flags submode) m)
  unfolding attempts try_unpack_fast_data try_unpack_data
  Sound-attempts encoded flags submode m =
      let s = unparsed encoded flags submode in
      let fast = unpack_fast_data_message dictionary m in
      let slow = unpack_data_message dictionary entries m in
      let both = Sound-or_else encoded flags submode in
      both _ _
        (Sound-if encoded flags submode (not (data_flagged s)) (with_data s fast)
          (Sound-with_data encoded flags submode fast))
        (both _ _
          (Sound-if encoded flags submode (data_flagged s) (with_data s slow)
            (Sound-with_data encoded flags submode slow))
          (both _ _ (Sound-heartbeat encoded flags submode m) (
            both _ _ (Sound-compound encoded flags submode m)
              (Sound-directed encoded flags submode m))))

  -- Whatever the text, a classified frame keeps its text, flags and submode, is marked as a
  -- heartbeat or has directed parts exactly when its type says so, and is data or of unknown type
  -- when its flags say data.
  pub parse_frame-IsConsistent :
      (encoded : List ℕ) (flags : FrameFlags) (submode : Submode) (f : ParsedFrame)
      → parse_frame dictionary entries encoded flags submode ≡ some f
      → IsConsistent encoded flags submode f
  unfolding parse_frame
  parse_frame-IsConsistent encoded flags submode f e =
      let this = unparsed encoded flags submode in
      let m = trim encoded in
      elim (Bool-cases (not_a_frame m)) [
        | inl short ↦
            subst (IsConsistent encoded flags submode)
              (some-injective this f (rw (parse_frame, short) at e))
              (start-IsConsistent encoded flags submode)
        | inr long ↦
            Sound-result encoded flags submode (attempts dictionary entries this m)
              (Sound-attempts encoded flags submode m) (rw (parse_frame, long) at e)
      ]

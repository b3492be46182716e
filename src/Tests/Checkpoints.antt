-- ===== src/Tests/Checkpoints.antt =====
-- A codec of checkpoints, and the configurations of a claim.
use dra_driver_spyre.Prelude.{
  ℕ, String, Bool, true, false, ◌≡◌, refl, sym, inl, inr, Bool-cases, Option, none, some, List, [],
  ◌∷◌, ◌++◌, ◌==◌, ◌↔◌, eqb, if◌then◌else◌, arith,
}
use Prim.Native.Char.{code}
use dra_driver_spyre.Env.{Error, ext, Result, ok, err, PreparedClaims}
use dra_driver_spyre.Checkpoint.{
  Checkpoint, Codec, new_checkpoint, marshal_checkpoint, unmarshal_checkpoint, verify_checksum,
}
use dra_driver_spyre.Checkpoint.Roundtrip.{
  CodecLaws, marshal_checkpoint_lem, unmarshal-marshal_checkpoint,
  verify_checksum-marshal_checkpoint,
}
use dra_driver_spyre.State.Configs.{
  from_class, from_claim, Source, AllocationConfig, is_ignored, add_by_source, by_source,
  add_decoded, decode_own, decode_sources, get_opaque_device_configs,
}
use dra_driver_spyre.State.Configs.Precedence.{
  select, is_class, is_claim, Decodes, get_opaque_device_configs-Decodes,
}

-- It writes a checkpoint with one claim without devices, whose checksum is 0 or 7: a digit and the claim.
abbrev marshal_claims : ℕ → Option PreparedClaims → Result String
marshal_claims sum (some ((uid, some []) ∷ [])) =
    if eqb sum 0
    then ok (String.◌∷◌ "0" uid)
    else if eqb sum 7
    then ok (String.◌∷◌ "7" uid)
    else err (ext "checksum")
marshal_claims sum (some ((uid, some (d ∷ ds)) ∷ [])) = err (ext "devices")
marshal_claims sum (some ((uid, none) ∷ [])) = err (ext "null")
marshal_claims sum (some []) = err (ext "no claim")
marshal_claims sum (some (c ∷ d ∷ rest)) = err (ext "claims")
marshal_claims sum none = err (ext "no claims")

abbrev sum_of : Bool → ℕ
sum_of true = 0
sum_of false = 7

abbrev read_text : String → Checkpoint → Option Error × Checkpoint
read_text String.[] cp = (some (ext "empty"), cp)
read_text (String.◌∷◌ c uid) cp =
    (none, record { checksum = sum_of (eqb (code c) 48); v1 = some ((uid, some []) ∷ []) })

abbrev sum_of_text : String → ℕ
sum_of_text text = if text == "0claim-1" then 7 else 5

abbrev codec : Codec
codec = record {
  marshal = λ cp. marshal_claims cp.checksum cp.v1;
  unmarshal = read_text;
  new = sum_of_text;
  verify =
      λ ck text. if eqb ck (sum_of_text text) then ok tt else err (ext "checkpoint is corrupted");
}

of_ok : {s t : String} → Path (Result String) (ok s) (ok t) → s ≡ t
of_ok e = cc

refused : {e : Error} {t : String} → Path (Result String) (err e) (ok t) → ⊥
refused e = cc

read_back :
    (sum : ℕ) (v1 : Option PreparedClaims) (text : String)
    → marshal_claims sum v1 ≡ ok text
    → read_text text new_checkpoint ≡ (none, record { checksum = sum; v1 = v1 })
read_back sum none text h = cc
read_back sum (some []) text h = cc
read_back sum (some (c ∷ d ∷ rest)) text h = cc
read_back sum (some ((uid, none) ∷ [])) text h = cc
read_back sum (some ((uid, some (d ∷ ds)) ∷ [])) text h = cc
read_back sum (some ((uid, some []) ∷ [])) text h = elim (Bool-cases (eqb sum 0)) [
  | inl zero ↦
      let is_zero : sum ≡ 0 = ground arith in
      let written : String.◌∷◌ "0" uid ≡ text = of_ok (rw zero at h) in
      rw (sym written, is_zero) refl
  | inr positive ↦ elim (Bool-cases (eqb sum 7)) [
    | inl seven ↦
        let is_seven : sum ≡ 7 = ground arith in
        let written : String.◌∷◌ "7" uid ≡ text = of_ok (rw (positive, seven) at h) in
        rw (sym written, is_seven) refl
    | inr other ↦ absurd (refused (rw (positive, other) at h))
  ]
]

accepts :
    (ck sum : ℕ)
    → (Path
        (Result (Unit {0}))
        (if eqb ck sum then ok tt else err (ext "checkpoint is corrupted"))
        (ok tt))
      ↔ (ck ≡ sum)
accepts ck sum = (λ h. ground arith, λ e. ground arith)

codec_laws : CodecLaws codec
codec_laws = record {
  unmarshal-marshal = λ cp claims text held h. read_back cp.checksum cp.v1 text h;
  verify_iff = λ ck text. accepts ck (sum_of_text text);
}

abbrev held : PreparedClaims
held = ("claim-1", some []) ∷ []

abbrev checkpoint : Checkpoint
checkpoint = record { checksum = 0; v1 = some held }

marshalled : (marshal_checkpoint codec checkpoint).0 ≡ ok "7claim-1"
marshalled = marshal_checkpoint_lem codec checkpoint "0claim-1" refl

unmarshal-marshal_checkpoint_example :
    (back : Checkpoint) × (unmarshal_checkpoint codec new_checkpoint "7claim-1" ≡ (none, back))
    × (back.v1 ≡ some held)
    × (verify_checksum codec back ≡ (ok tt, back))
unmarshal-marshal_checkpoint_example =
    unmarshal-marshal_checkpoint codec codec_laws checkpoint held "7claim-1" refl marshalled

abbrev config_of : Source → String → String → AllocationConfig
config_of source driver parameters = record {
  requests = [];
  source = source;
  opaque = some (record { driver = driver; parameters = parameters });
}

abbrev configs : List AllocationConfig
configs =
    config_of from_claim "spyre.ibm.com" "claim"
    ∷ config_of from_class "gpu.example.com" "other"
    ∷ config_of from_class "spyre.ibm.com" "class"
    ∷ []

decoded : get_opaque_device_configs ok "spyre.ibm.com" "spyre" configs ≡ ok ("class" ∷ "claim" ∷ [])
unfolding get_opaque_device_configs decode_sources by_source is_ignored add_by_source decode_own
    add_decoded
decoded = refl

get_opaque_device_configs-Decodes_example :
    Decodes ok "spyre.ibm.com"
      (select is_class "spyre" configs ++ select is_claim "spyre" configs)
      ("class" ∷ "claim" ∷ [])
get_opaque_device_configs-Decodes_example =
    get_opaque_device_configs-Decodes ok "spyre.ibm.com" "spyre" configs ("class" ∷ "claim" ∷ [])
      decoded

-- the claims that replace those of the checkpoint, of which the text has another checksum
abbrev replaced : PreparedClaims
replaced = ("claim-2", some []) ∷ []

verify_checksum-marshal_checkpoint_example :
    ((verify_checksum codec
        (record ((marshal_checkpoint codec checkpoint).1) { v1 = some replaced })).0
      ≡ ok tt)
    ↔ (Path ℕ 7 5)
verify_checksum-marshal_checkpoint_example =
    verify_checksum-marshal_checkpoint codec codec_laws checkpoint (some replaced) "7claim-1"
      "0claim-1" "0claim-2" marshalled refl refl

-- ===== src/Checkpoint/Roundtrip.antt =====
-- Checkpoints that are written, read back, changed and verified.
use dra_driver_spyre.Prelude.{ℕ, String, ◌≡◌, ◌↔◌, refl, sym, subst, ◌∙◌, Option, none, some}
use dra_driver_spyre.Env.{Result, ok, err, PreparedClaims}
use dra_driver_spyre.Checkpoint.{
  Checkpoint, Codec, new_checkpoint, marshal_sum, marshal_checkpoint, unmarshal_checkpoint,
  verify_sum, verify_checksum,
}

-- What the code relies on: a text that was made from a checkpoint with claims unmarshals into it, in a
-- new checkpoint, and a checksum verifies exactly the texts that have it.
pub record CodecLaws (codec : Codec) : Type 0 where
  pub unmarshal-marshal :
      (cp : Checkpoint) (claims : PreparedClaims) (text : String)
      → cp.v1 ≡ some claims
      → codec.marshal cp ≡ ok text
      → codec.unmarshal text new_checkpoint ≡ (none, cp)
  pub verify_iff : (ck : ℕ) (text : String) → (codec.verify ck text ≡ ok tt) ↔ (ck ≡ codec.new text)

-- what MarshalCheckpoint writes: the text of the checkpoint with the checksum of `out`
pub marshal_checkpoint_lem :
    (codec : Codec) (cp : Checkpoint) (out : String)
    → codec.marshal (record cp { checksum = 0 }) ≡ ok out
    → (marshal_checkpoint codec cp).0 ≡ codec.marshal (record cp { checksum = codec.new out })
unfolding marshal_checkpoint marshal_sum
marshal_checkpoint_lem codec cp out h = rw (h, marshal_sum) refl

module _ (codec : Codec) (laws : CodecLaws codec) where
  -- what MarshalCheckpoint leaves in its receiver, where it returns
  marshal_cases :
      (cp : Checkpoint) (r : Result String) (text : String)
      → (marshal_sum codec cp r).0 ≡ ok text
      → (out : String) × (r ≡ ok out)
        × (codec.marshal (record cp { checksum = codec.new out }) ≡ ok text)
        × ((marshal_sum codec cp r).1 ≡ record cp { checksum = codec.new out })
  unfolding marshal_sum
  marshal_cases cp (err e) text h = cc
  marshal_cases cp (ok out) text h = (out, refl, h, refl)

  -- Let the JSON and checksum packages behave as documented. A text that MarshalCheckpoint returns for
  -- some claims is unmarshalled, into a new checkpoint, as a checkpoint with the same claims, whose
  -- checksum VerifyChecksum accepts and leaves in place.
  pub unmarshal-marshal_checkpoint :
      (cp : Checkpoint) (claims : PreparedClaims) (text : String)
      → cp.v1 ≡ some claims
      → (marshal_checkpoint codec cp).0 ≡ ok text
      → (back : Checkpoint) × (unmarshal_checkpoint codec new_checkpoint text ≡ (none, back))
        × (back.v1 ≡ some claims)
        × (verify_checksum codec back ≡ (ok tt, back))
  unfolding marshal_checkpoint unmarshal_checkpoint verify_checksum verify_sum
  unmarshal-marshal_checkpoint cp claims text held h =
      let (out, made, marshalled, left) =
        marshal_cases cp (codec.marshal (record cp { checksum = 0 })) text h in
      let back = record cp { checksum = codec.new out } in
      (
        back,
        laws.unmarshal-marshal back claims text held marshalled,
        held,
        rw (made, verify_sum, (laws.verify_iff (codec.new out) out).1 refl) refl,
      )

  -- Let the checksum package behave as documented. Where MarshalCheckpoint returns, and the claims of its
  -- receiver are then replaced, VerifyChecksum accepts the receiver exactly if the text with the new claims
  -- has the same checksum as the text with the old ones, each made with a checksum of zero.
  pub verify_checksum-marshal_checkpoint :
      (cp : Checkpoint) (other : Option PreparedClaims) (text before after : String)
      → (marshal_checkpoint codec cp).0 ≡ ok text
      → codec.marshal (record cp { checksum = 0 }) ≡ ok before
      → codec.marshal (record cp { checksum = 0; v1 = other }) ≡ ok after
      → ((verify_checksum codec (record ((marshal_checkpoint codec cp).1) { v1 = other })).0
          ≡ ok tt)
        ↔ (codec.new before ≡ codec.new after)
  unfolding marshal_checkpoint verify_checksum verify_sum
  verify_checksum-marshal_checkpoint cp other text before after h old new =
      let (out, made, _, left) =
        marshal_cases cp (codec.marshal (record cp { checksum = 0 })) text h in
      let same : out ≡ before = of_ok (sym made ∙ old) in
      subst
        (λ back.
          ((verify_checksum codec (record back { v1 = other })).0 ≡ ok tt)
          ↔ (codec.new before ≡ codec.new after))
        (sym left)
        (rw (verify_checksum, new, verify_sum, same) (laws.verify_iff (codec.new before) after))
    where
      of_ok : {a b : String} → Path (Result String) (ok a) (ok b) → a ≡ b
      of_ok e = cc

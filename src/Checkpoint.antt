-- ===== src/Checkpoint.antt =====
-- internal/state/checkpoint.go: the checkpoint file and its checksum. encoding/json and kubelet's
-- checksum package are a parameter, a `Codec`.
pub mod Roundtrip
use dra_driver_spyre.Prelude.{ℕ, String, Option, none, some, []}
use dra_driver_spyre.Env.{Error, Result, ok, err, PreparedClaims}

-- Checkpoint, with the claims of its CheckpointV1, if that is there
pub record Checkpoint : Type 0 where
  pub checksum : ℕ
  pub v1 : Option PreparedClaims

-- json.Marshal, json.Unmarshal into a Checkpoint, checksum.New, and Checksum.Verify
pub record Codec : Type 0 where
  pub marshal : Checkpoint → Result String
  pub unmarshal : String → Checkpoint → Option Error × Checkpoint
  pub new : String → ℕ
  pub verify : ℕ → String → Result (Unit {0})

-- newCheckpoint
pub new_checkpoint : Checkpoint
new_checkpoint = record { checksum = 0; v1 = some [] }

module _ (codec : Codec) where
  -- MarshalCheckpoint; the receiver's checksum is changed
  pub marshal_sum : Checkpoint → Result String → Result String × Checkpoint
  marshal_sum cp (err e) = (err e, record cp { checksum = 0 })
  marshal_sum cp (ok out) = (
    codec.marshal (record cp { checksum = codec.new out }),
    record cp { checksum = codec.new out },
  )

  pub marshal_checkpoint : Checkpoint → Result String × Checkpoint
  unfolding marshal_sum
  marshal_checkpoint cp = marshal_sum cp (codec.marshal (record cp { checksum = 0 }))

  -- UnmarshalCheckpoint
  pub unmarshal_checkpoint : Checkpoint → String → Option Error × Checkpoint
  unmarshal_checkpoint cp text = codec.unmarshal text cp

  -- VerifyChecksum; the deferred function restores the checksum
  pub verify_sum : ℕ → Result String → Result (Unit {0})
  verify_sum ck (err e) = err e
  verify_sum ck (ok out) = codec.verify ck out

  pub verify_checksum : Checkpoint → Result (Unit {0}) × Checkpoint
  unfolding verify_sum
  verify_checksum cp = (verify_sum cp.checksum (codec.marshal (record cp { checksum = 0 })), cp)

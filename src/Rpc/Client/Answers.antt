-- ===== src/Rpc/Client/Answers.antt =====
-- How a client of src/rpc/client.rs reads the data of the responses of src/rpc/server.rs, whose
-- error codes it passes over.
use replicat.Prelude.{String, ◌≡◌, inl, inr, arith}
use replicat.Exec.{Result, ok, err, Result-cases}
use replicat.Env.{Codec, IsRoundTrip}
use replicat.Rpc.{RpcResponse, RpcError, fatal}
use replicat.Rpc.Peer.{Peer}
use replicat.Rpc.Server.{Failure as ServerFailure, with_data, response_ok, fatal_resp}
use replicat.Rpc.Client.{Failure, failed, network_error, from_bytes}

-- an answer that has an encoding arrives
abbrev pub arrived : {A : Type 0} → Codec A → A → Result Failure A
arrived codec a = elim (codec.to_vec a) [ ok _ ↦ ok a | err _ ↦ err (failed network_error) ]

-- an error that has an encoding is read as an answer in that encoding
abbrev pub misread : {A B : Type 0} → Codec A → Codec B → A → Result Failure B
misread codec answer a = elim (codec.to_vec a) [
  | ok b ↦ from_bytes answer b
  | err _ ↦ err (failed network_error)
]

-- What a caller hears of a call that fails with fatal errors only.
abbrev pub heard : {A : Type 0} (peer : Peer) → Codec A → Result peer.Fatal A → Result Failure A
heard peer codec (ok res) = arrived codec res
heard peer codec (err x) = misread peer.fatal_codec codec x

module _ {B : Type 0} (answer : Codec B) where
  -- a response, or a status, as the client reads it
  abbrev pub read_data : Result ServerFailure RpcResponse → Result Failure B
  read_data (ok resp) = from_bytes answer resp.additional_data
  read_data (err _) = err (failed network_error)

  pub read_data-misread :
      {A : Type 0} (codec : Codec A) (error : RpcError) (message : String) (a : A)
      → read_data (with_data error message codec a) ≡ misread codec answer a
  read_data-misread codec error message a = ground arith

  pub read_data-arrived :
      IsRoundTrip answer → (res : B) → read_data (response_ok answer res) ≡ arrived answer res
  unfolding response_ok
  read_data-arrived round res = elim (Result-cases (answer.to_vec res)) [
    | inl (b, e) ↦ ground (arith, round.decode res b e)
    | inr (x, e) ↦ ground arith
  ]

  module _ (peer : Peer) (round : IsRoundTrip answer) where
    abbrev fatal_answer : Result peer.Fatal B → Result ServerFailure RpcResponse
    fatal_answer (ok res) = response_ok answer res
    fatal_answer (err x) = fatal_resp peer x

    pub read_data-heard :
        (r : Result peer.Fatal B) → read_data (fatal_answer r) ≡ heard peer answer r
    unfolding fatal_resp
    read_data-heard (ok res) = read_data-arrived round res
    read_data-heard (err x) = read_data-misread peer.fatal_codec fatal _ x

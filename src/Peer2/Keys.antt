-- ===== src/Peer2/Keys.antt =====
-- src/peer2.rs: the files with the keys, and the endpoint that uses them.
use world_dat.Base.{Bool, Option, none, some, List, if◌then◌else◌}
use world_dat.Peer2.Quinn.{Files, Quinn}
use world_dat.Program.Results.{Result, done, ◌>>=◌, map_err}
use world_dat.Types.{SocketAddr}

-- The texts of the errors of `load_tls_keys`.
pub data KeyError : Type 0 where
  failed_to_read_private_key : KeyError
  failed_to_read_certificates : KeyError

-- `crate::PeerOpt`, which src/lib.rs does not have: the fields that the code reads. src/bin/sim.rs has an
-- option type of that name with them.
pub record PeerOpt (FilePath : Type 0) : Type 0 where
  pub bootstrap_peer : Option SocketAddr
  pub listen : SocketAddr
  pub ca : Option FilePath
  pub key : FilePath
  pub cert : FilePath
  pub logproto : Bool

module _ (files : Files) where
  open files use {FilePath, PrivateKey, Certificate, open_file, rsa_private_keys, certs}

  unfoldable pub load_tls_keys :
      FilePath → FilePath → Result KeyError (List PrivateKey × List Certificate)
  load_tls_keys keyfile certfile = do
    key_reader ← map_err failed_to_read_private_key (open_file keyfile)
    keys ← map_err failed_to_read_private_key (rsa_private_keys key_reader)
    cert_reader ← map_err failed_to_read_private_key (open_file certfile)
    cert_chain ← map_err failed_to_read_certificates (certs cert_reader)
    done (keys, cert_chain)

  module _ (quinn : Quinn files) where
    open quinn use {Builder, Endpoint, Connection, builder, set_certificate, logger, bind, connect}

    -- `run`, from the certificate to the endpoint.
    unfoldable pub make_endpoint :
        PeerOpt FilePath → List Certificate → PrivateKey → Result quinn.Error Endpoint
    make_endpoint options cert_chain key = do
      certified ← set_certificate builder cert_chain key
      bind (if options.logproto then logger certified else certified) options.listen

    -- An attempt to connect to the bootstrap peer, if there is one. The connection that it makes is for
    -- the task that is spawned.
    unfoldable pub connect_bootstrap : PeerOpt FilePath → Endpoint → Result quinn.Error (Unit {0})
    connect_bootstrap options endpoint = elim options.bootstrap_peer [
      | none ↦ done tt
      | some addr ↦ connect endpoint addr
    ]

-- ===== src/Manager/Certificates.antt =====
-- `generate_tls_certs` of utils/cluster_manager.py.
use Prim.Native.String.{◌++◌ as ◌<>◌}
use glide_for_redis.Common.{ℕ, none, some, String, [], ◌∷◌, if◌then◌else◌}
use glide_for_redis.Common.Text.{pos, is_zero, str}
use glide_for_redis.Manager.System.{
  when◌then◌else◌, exception, Action, pure, throw, ask, tell, ◌>>=◌, ◌>>◌, Os, seconds,
}
use glide_for_redis.Manager.Waiting.{Paths, ca_crt, redis_crt, redis_key}

module _ {W : Type 0} (os : Os W) where
  -- `p.communicate(timeout=10)` and the test on `p.returncode`.
  unfoldable pub finish : ℕ → String → Action W (Unit {0})
  finish p message = do
    ask (os.communicate p (seconds 10)) >> tell (os.returncode p) >>= λ code.
        when is_zero code then pure tt else throw (exception message)

  unfoldable pub make_key : String → ℕ → Action W (Unit {0})
  make_key name size = do
    p ← ask (os.popen ("openssl" ∷ "genrsa" ∷ "-out" ∷ name ∷ str (pos size) ∷ []) none)
    finish p ("Failed to make key for " <> name)

  -- The third process reads the Redis key for the fourth; it is the second, `p`, that is asked for
  -- its output and return code once more.
  unfoldable pub generate_tls_certs : Paths → Action W (Unit {0})
  generate_tls_certs paths = do
    let ca_key : String = paths.tls_folder <> "/ca.key"
    let ca_serial : String = paths.tls_folder <> "/ca.txt"
    let ext_file : String = paths.tls_folder <> "/openssl.cnf"
    ask (os.write_text ext_file "keyUsage = digitalSignature, keyEncipherment")
    make_key ca_key 4096
    make_key (redis_key paths) 2048
    p ← ask (
        os.popen
          ("openssl"
            ∷ "req"
            ∷ "-x509"
            ∷ "-new"
            ∷ "-nodes"
            ∷ "-sha256"
            ∷ "-key"
            ∷ ca_key
            ∷ "-days"
            ∷ "3650"
            ∷ "-subj"
            ∷ "/O=Redis Test/CN=Certificate Authority"
            ∷ "-out"
            ∷ ca_crt paths
            ∷ [])
          none)
    finish p "Failed to make create CA cert"
    p1 ← ask (
        os.popen
          ("openssl"
            ∷ "req"
            ∷ "-new"
            ∷ "-sha256"
            ∷ "-subj"
            ∷ "/O=Redis Test/CN=Generic-cert"
            ∷ "-key"
            ∷ redis_key paths
            ∷ [])
          none)
    finish p "Failed to read Redis key"
    last ← ask (
        os.popen
          ("openssl"
            ∷ "x509"
            ∷ "-req"
            ∷ "-sha256"
            ∷ "-CA"
            ∷ ca_crt paths
            ∷ "-CAkey"
            ∷ ca_key
            ∷ "-CAserial"
            ∷ ca_serial
            ∷ "-CAcreateserial"
            ∷ "-days"
            ∷ "3650"
            ∷ "-extfile"
            ∷ ext_file
            ∷ "-out"
            ∷ redis_crt paths
            ∷ [])
          (some p1))
    finish last "Failed to create redis cert"

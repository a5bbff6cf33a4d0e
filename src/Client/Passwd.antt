-- ===== src/Client/Passwd.antt =====
-- The copies of a session's password in `ZkClient::init` and `ZkClient::getClientId`: `strncpy`
-- over the 16 bytes of `SessionClientId::passwd`.
use zookeeper_cpp_client.Common.{
  ℕ, zero, suc, ◌≡◌, ◌≢◌, refl, true, [], ◌∷◌, ◌++◌, Option, none, some, arith, length, All, ◌==◌,
  if◌then◌else◌,
}
use zookeeper_cpp_client.Codes.{Bytes}
use zookeeper_cpp_client.Client.{SessionClientId, ZkClient, is_connected}

abbrev zeros : ℕ → Bytes
zeros zero = []
zeros (suc n) = 0 ∷ zeros n

-- strncpy(dst, src, n): up to the first NUL, then zeros to the width.
strncpy : ℕ → Bytes → Bytes
strncpy zero src = []
strncpy (suc n) [] = 0 ∷ zeros n
strncpy (suc n) (c ∷ src) = if c == 0 then 0 ∷ zeros n else c ∷ strncpy n src

abbrev pub passwd_size : ℕ
passwd_size = 16

unfoldable pub copy_client_id : SessionClientId → SessionClientId
unfolding strncpy
copy_client_id i = record i { passwd = strncpy passwd_size i.passwd }

-- ZkClient::getClientId, over what `zoo_client_id(zhandle_)` returns.
unfoldable pub get_client_id : ZkClient → Option SessionClientId → Option SessionClientId
unfolding copy_client_id
get_client_id c none = none
get_client_id c (some i) = if is_connected c then some (copy_client_id i) else none

strncpy-prefix :
    (xs ys : Bytes)
    → All (λ x. x ≢ 0) xs
    → strncpy (length (xs ++ 0 ∷ ys)) (xs ++ 0 ∷ ys) ≡ xs ++ 0 ∷ zeros (length ys)
unfolding strncpy
strncpy-prefix [] ys h = refl
strncpy-prefix (x ∷ xs) ys h = ground (arith, strncpy-prefix xs ys h.1)

-- Of a password with a NUL byte, a connected client's getClientId returns the bytes before the
-- first NUL and zeros after it: what stands behind a NUL is lost.
pub get_client_id_truncates :
    (c : ZkClient) (i : SessionClientId) (xs ys : Bytes)
    → is_connected c ≡ true
    → i.passwd ≡ xs ++ 0 ∷ ys
    → length (xs ++ 0 ∷ ys) ≡ passwd_size
    → All (λ x. x ≢ 0) xs
    → get_client_id c (some i) ≡ some (record i { passwd = xs ++ 0 ∷ zeros (length ys) })
unfolding get_client_id
get_client_id_truncates c i xs ys on e n h = ground (arith, strncpy-prefix xs ys h)

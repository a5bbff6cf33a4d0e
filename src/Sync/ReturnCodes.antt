-- ===== src/Sync/ReturnCodes.antt =====
-- Which return code of the C library stands behind a code of the client.
use zookeeper_cpp_client.Common.{◌≡◌, refl}
use zookeeper_cpp_client.Codes.{Rc, zok, znonode, znodeexists, znotempty, zk_succeed, zk_not_exist}
use zookeeper_cpp_client.Sync.{create_code, read_code, delete_code}

pub create_zok : (rc : Rc) → create_code rc ≡ zk_succeed → rc ≡ zok
create_zok zok e = refl
create_zok znonode e = cc e
create_zok znodeexists e = cc e
create_zok _ e = cc e

pub delete_zok : (rc : Rc) → delete_code rc ≡ zk_succeed → rc ≡ zok
delete_zok zok e = refl
delete_zok znonode e = cc e
delete_zok znotempty e = cc e
delete_zok _ e = cc e

pub read_zok : (rc : Rc) → read_code rc ≡ zk_succeed → rc ≡ zok
read_zok zok e = refl
read_zok znonode e = cc e
read_zok _ e = cc e

pub read_znonode : (rc : Rc) → read_code rc ≡ zk_not_exist → rc ≡ znonode
read_znonode znonode e = refl
read_znonode zok e = cc e
read_znonode _ e = cc e

-- ===== src/Examples/Locks.antt =====
-- Two readers and a writer of a shared lock, with the numbers of the servers in ten digits.
use zookeeper_cpp_client.Common.{
  ℕ, zero, suc, ◌+◌, ◌-◌, ◌*◌, ◌/◌, ◌%◌, ◌<◌, ◌≡◌, refl, ap, ◌∙◌, sym, true, false, List, [], ◌∷◌,
  ◌++◌, Option, none, some, arith, ◌==◌, All-append,
}
use mathlib.Core.List.{append_assoc, append-nil}
use zookeeper_cpp_client.Codes.{Bytes, node_delete}
use zookeeper_cpp_client.Zoo.Path.{child}
use zookeeper_cpp_client.SharedLock.{
  ready_lock, new_shared_lock, least_node, unlock, blocks, child_path, parent_path,
}
use zookeeper_cpp_client.SharedLock.Names.{
  IsPlain, digits, strtouq, get_seq_no, is_read_type_lock, data_less, after,
}
use zookeeper_cpp_client.SharedLock.World.{
  Phase, act, notified, waiting, holding, idle, entered, with_phase, World, Action, creates, looks,
  registers, run, new_world,
}
use zookeeper_cpp_client.SharedLock.Course.{IsSuffix, child_path_reads}
use zookeeper_cpp_client.SharedLock.Abandoned.{abandoned_blocks}
use zookeeper_cpp_client.SharedLock.Awaited.{awaited_node_wakes}
use zookeeper_cpp_client.SharedLock.Exclusion.{is_holding, writer_excludes}

-- The last decimal digits of a number.
abbrev padded : ℕ → ℕ → Bytes
padded zero n = []
padded (suc k) n = padded k (n / 10) ++ (b'0' + n % 10) ∷ []

padded-IsPlain : (k n : ℕ) → IsPlain (padded k n)
padded-IsPlain zero n = tt
padded-IsPlain (suc k) n =
    All-append (λ b. (b == b'-') ≡ false) (padded k (n / 10)) ((b'0' + n % 10) ∷ [])
      (padded-IsPlain k (n / 10)) (ground arith, tt)

abbrev ten : ℕ → ℕ
ten zero = 1
ten (suc k) = ten k * 10

last_digit : (a t n : ℕ) → (a * t + n / 10) * 10 + (b'0' + n % 10 - b'0') ≡ a * (t * 10) + n
last_digit a t n = grind arith

digits-padded :
    (k n a : ℕ) (rest : Bytes)
    → n < ten k
    → digits a (padded k n ++ rest) ≡ digits (a * ten k + n) rest
unfolding digits
digits-padded zero n a rest h = ap (λ x. digits x rest) (omega (arith, h))
digits-padded (suc k) n a rest h =
    ap (digits a) (append_assoc (padded k (n / 10)) ((b'0' + n % 10) ∷ []) rest)
    ∙ digits-padded k (n / 10) a ((b'0' + n % 10) ∷ rest) (omega (arith, h))
    ∙ ground (arith, last_digit a (ten k) n)

ten_digits : ℕ → Bytes
ten_digits n = padded 10 n

ten_digits-IsSuffix : IsSuffix ten_digits
unfolding strtouq ten_digits
ten_digits-IsSuffix = record {
  plain = λ n. padded-IsPlain 10 n;
  number = λ n h. omega (
    arith,
    h,
    ap (digits 0) (sym (append-nil (padded 10 n))),
    digits-padded 10 n 0 [] (omega (arith, h)),
  );
}

abbrev rwlock : Bytes
rwlock = b'r' ∷ b'w' ∷ b'l' ∷ b'o' ∷ b'c' ∷ b'k' ∷ []

rwlock-IsPlain : IsPlain rwlock
rwlock-IsPlain = (refl, (refl, (refl, (refl, (refl, (refl, tt))))))

-- The object 1 writes; the object 2 waits to read.
abbrev some_acts : List Action
some_acts = creates 1 false ∷ creates 2 true ∷ looks 1 ∷ looks 2 ∷ registers 2 ∷ []

abbrev or_new : Option World → World
or_new none = new_world (λ p. rwlock)
or_new (some w) = w

abbrev writing : World
writing = or_new (run ten_digits some_acts (new_world (λ p. rwlock)))

abbrev path_of : Phase → Bytes
path_of (holding r path) = path
path_of (entered r path) = path
path_of (waiting r path) = path
path_of _ = []

abbrev first_path : Bytes
first_path = path_of (writing.worker 1).phase

writer_excludes_example : is_holding (writing.worker 2).phase ≡ false
unfolding run new_world ready_lock new_shared_lock least_node unlock data_less get_seq_no
    is_read_type_lock after strtouq digits ten_digits
writer_excludes_example =
    writer_excludes ten_digits ten_digits-IsSuffix (λ p. rwlock) some_acts writing 1 2 first_path
      (λ p. rwlock-IsPlain) refl refl (λ e. omega (arith, e))

-- The object 1 gives up, the object 2 has written before it, and 3 waits.
abbrev earlier_acts : List Action
earlier_acts = creates 2 false ∷ looks 2 ∷ creates 1 true ∷ []

abbrev entered_world : World
entered_world = or_new (run ten_digits earlier_acts (new_world (λ p. rwlock)))

abbrev later_world : World
later_world =
    or_new (run ten_digits (creates 3 false ∷ looks 3 ∷ []) (with_phase 1 idle entered_world))

abbrev given_up : Bytes
given_up = path_of (entered_world.worker 1).phase

abbrev written : Bytes
written = path_of (later_world.worker 2).phase

abandoned_blocks_example : get_seq_no written < get_seq_no given_up
unfolding run new_world ready_lock new_shared_lock least_node unlock data_less get_seq_no
    is_read_type_lock after strtouq digits ten_digits
abandoned_blocks_example =
    abandoned_blocks ten_digits ten_digits-IsSuffix (λ p. rwlock) earlier_acts
      (creates 3 false ∷ looks 3 ∷ []) entered_world later_world 1 2 true given_up written
      (λ p. rwlock-IsPlain) refl refl refl refl

child_path_reads_example :
    let path = child_path true (ready_lock rwlock) ++ ten_digits 12 in
    (is_read_type_lock path ≡ true) × (get_seq_no path ≡ 12)
unfolding ready_lock new_shared_lock
child_path_reads_example =
    child_path_reads ten_digits ten_digits-IsSuffix true (ready_lock rwlock) 12 rwlock-IsPlain
      (omega arith)

abbrev awaiting_path : Bytes
awaiting_path = path_of (writing.worker 2).phase

awaited_node_wakes_example :
    (c : Bytes) × (blocks true awaiting_path c ≡ true)
    × (act ten_digits (notified 2 true node_delete (child parent_path c)) writing
        ≡ some (with_phase 2 (entered true awaiting_path) writing))
unfolding run new_world ready_lock new_shared_lock least_node unlock data_less get_seq_no
    is_read_type_lock after strtouq digits ten_digits
awaited_node_wakes_example =
    awaited_node_wakes ten_digits (λ p. rwlock) some_acts writing 2 true awaiting_path refl refl

-- ===== src/Observe/Facts.antt =====
-- src/iaas/observation.py: `safe_facts`, which reduces arbitrary evidence to the allowed facts.
use iaas.Prelude.{
  ℕ, zero, suc, Bool, false, ◌&&◌, ◌||◌, Option, none, some, List, [], ◌∷◌, Text, codes, text_eq,
  is_in, all, take, contains, not, ◌==◌, ltb, if◌then◌else◌,
}
use iaas.Prelude.Unicode.{is_digit}
use iaas.Value.{
  Value, Values, Fields, null, bool, int, float_integer, float_other, str, list, dict, object, nil,
  cons, end, field, is_null, is_text,
}

abbrev pub fact_keys : List Text
fact_keys =
    codes "kind"
    ∷ codes "resource_id"
    ∷ codes "vmid"
    ∷ codes "volid"
    ∷ codes "size"
    ∷ codes "size_bytes"
    ∷ codes "capacity"
    ∷ codes "uuid"
    ∷ codes "smbios_uuid"
    ∷ codes "upid"
    ∷ codes "pid"
    ∷ codes "node"
    ∷ codes "storage"
    ∷ codes "pool"
    ∷ codes "slot"
    ∷ codes "slots"
    ∷ codes "volumes"
    ∷ codes "status"
    ∷ codes "exitstatus"
    ∷ codes "exists"
    ∷ codes "complete"
    ∷ codes "registered"
    ∷ codes "activity"
    ∷ codes "expected"
    ∷ codes "actual"
    ∷ codes "reason"
    ∷ codes "category"
    ∷ codes "http_status"
    ∷ codes "template"
    ∷ codes "digest"
    ∷ codes "inode"
    ∷ codes "matched"
    ∷ codes "missing"
    ∷ codes "config_matches"
    ∷ codes "owner"
    ∷ codes "running"
    ∷ codes "exited"
    ∷ codes "exitcode"
    ∷ codes "ready"
    ∷ codes "present"
    ∷ codes "absent"
    ∷ codes "root_disk_bytes"
    ∷ codes "root_partition_bytes"
    ∷ codes "root_filesystem_bytes"
    ∷ codes "machine_id_initialized"
    ∷ codes "instance_id"
    ∷ codes "addresses"
    ∷ codes "default_gateways"
    ∷ codes "nameservers"
    ∷ codes "clone_marker"
    ∷ codes "ownership"
    ∷ codes "existence"
    ∷ codes "inventory_complete"
    ∷ codes "cores"
    ∷ codes "memory"
    ∷ codes "power"
    ∷ codes "checks"
    ∷ codes "observed_at"
    ∷ codes "submitted_at"
    ∷ []

-- The rest of a text behind a prefix.
strip_prefix : Text → Text → Option Text
strip_prefix [] s = some s
strip_prefix (c ∷ p) [] = none
strip_prefix (c ∷ p) (d ∷ s) = let rest = strip_prefix p s in if c == d then rest else none

-- A match of `\d+`.
pub is_digits : Text → Bool
unfolding is_digit
is_digits [] = false
is_digits (c ∷ s) = is_digit c && all is_digit s

abbrev disk_prefixes : List Text
disk_prefixes =
    codes "scsi"
    ∷ codes "virtio"
    ∷ codes "sata"
    ∷ codes "ide"
    ∷ codes "efidisk"
    ∷ codes "tpmstate"
    ∷ []

numbered : Option Text → Bool
unfolding is_digits
numbered none = false
numbered (some rest) = is_digits rest

is_numbered : List Text → Text → Bool
unfolding strip_prefix numbered
is_numbered [] key = false
is_numbered (p ∷ ps) key = numbered (strip_prefix p key) || is_numbered ps key

unfoldable pub is_fact_key : Text → Bool
unfolding is_in is_numbered
is_fact_key key = is_in key fact_keys || is_numbered disk_prefixes key

-- `value not in ('OK', 'ERROR', 'unexpected status', None)`, negated.
abbrev pub is_exit_fact : Value → Bool
is_exit_fact v =
    is_null v
    || (is_text (codes "OK") v
        || (is_text (codes "ERROR") v || is_text (codes "unexpected status") v))

unfoldable pub clean_text : Text → Value
unfolding contains
clean_text s =
    if not (contains (codes "://") s) && not (contains (10 ∷ []) s)
    then str (take 512 s)
    else str (codes "[excluded]")

unfoldable mutual
  unfolding is_fact_key clean_text

  pub clean : ℕ → Value → Value
  clean depth null = null
  clean depth (bool b) = if ltb 6 depth then null else bool b
  clean depth (int z) = if ltb 6 depth then null else int z
  clean depth (float_integer z) = if ltb 6 depth then null else int z
  clean depth float_other = null
  clean depth (str s) = if ltb 6 depth then null else clean_text s
  clean depth (list vs) = if ltb 6 depth then null else list (clean_items depth 64 vs)
  clean depth (dict fs) = if ltb 6 depth then null else dict (clean_fields depth fs)
  clean depth object = null

  -- `item[:64]` by the number of items that are left.
  pub clean_items : ℕ → ℕ → Values → Values
  clean_items depth left nil = nil
  clean_items depth zero (cons v vs) = nil
  clean_items depth (suc left) (cons v vs) = cons (clean (suc depth) v) (clean_items depth left vs)

  pub clean_fields : ℕ → Fields → Fields
  clean_fields depth end = end
  clean_fields depth (field key v fs) =
      let rest = clean_fields depth fs in
      let kept =
        if text_eq key (codes "exitstatus") && not (is_exit_fact v)
        then str (codes "non_ok")
        else clean (suc depth) v in
      if is_fact_key key then field key kept rest else rest

-- `clean` of a `dict` at depth 0 is a `dict`.
unfoldable pub safe_facts : Fields → Fields
unfolding clean_fields
safe_facts facts = clean_fields 0 facts

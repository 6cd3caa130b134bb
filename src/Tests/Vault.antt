-- ===== src/Tests/Vault.antt =====
-- `writeConfigs` (vault.go, vault_test.go).
use vpnproxy.Base.{ℕ, true, List, [], ◌∷◌, none, some, ◌≡◌, ◌≢◌, refl, ap, Bytes, codes}
use vpnproxy.Go.Text.{has_suffix, less, insert, sort, equal}
use vpnproxy.Go.Text.Sort.{Distinct}
use vpnproxy.Vault.{
  Files, Env, write_file_atomic, Field, text, is_region_name, refused, written, invalid_name,
  check_fields, content_of, end_line, names_of, write_names, write_valid, write_configs,
}
use vpnproxy.Vault.Atomic.{IsAllOrNothing, write_file_atomic-IsAllOrNothing}
use vpnproxy.Vault.Configs.{Says, write_configs-Says}

abbrev pub path : Bytes → Bytes
path name = b'/' ∷ name

abbrev pub works : Env
works = record {
  temp = some (codes "t");
  chmods = true;
  written = none;
  closes = true;
  renames = true;
}

abbrev pub empty : Files
empty p = none

abbrev pub fields : List Field
fields =
    (record { name = codes "FR"; value = text (codes "x") })
    ∷ (record { name = codes "BR"; value = text (codes "y\n") })
    ∷ []

written_names :
    (write_configs path (λ i. works) fields true empty).1 ≡ written (codes "BR" ∷ codes "FR" ∷ [])
unfolding write_configs write_valid write_names write_file_atomic check_fields is_region_name
    content_of end_line has_suffix sort insert less equal
written_names = refl

ended_by_line_end :
    (write_configs path (λ i. works) fields true empty).0 (codes "/FR") ≡ some (codes "x\n")
unfolding write_configs write_valid write_names write_file_atomic check_fields is_region_name
    content_of end_line has_suffix sort insert less equal
ended_by_line_end = refl

no_path :
    (write_configs path
      (λ i. works)
      ((record { name = codes "../x"; value = text [] }) ∷ [])
      true
      empty).1
    ≡ refused (invalid_name (codes "../x"))
unfolding write_configs check_fields is_region_name
no_path = refl

path_apart :
    (m n : Bytes) → is_region_name m ≡ true → is_region_name n ≡ true → path m ≡ path n → m ≡ n
path_apart m n _ _ e = cc

temp_apart : (i : ℕ) (n : Bytes) → is_region_name n ≡ true → works.temp ≢ some (path n)
temp_apart i n _ e = cc

fields-Distinct : Distinct (names_of fields)
unfolding equal
fields-Distinct = (((λ e. cc (ap (equal (codes "FR")) e)), tt), (tt, tt))

write_configs-Says_example :
    Says path
      (λ i. works)
      fields
      path_apart
      temp_apart
      empty
      (write_configs path (λ i. works) fields true empty)
write_configs-Says_example =
    write_configs-Says path (λ i. works) fields path_apart temp_apart true empty fields-Distinct

temp-ne : works.temp ≢ some (codes "/FR")
temp-ne e = cc

write_file_atomic-IsAllOrNothing_example :
    IsAllOrNothing
      (codes "/FR")
      (codes "x")
      empty
      works.temp
      (write_file_atomic works (codes "/FR") (codes "x") empty)
write_file_atomic-IsAllOrNothing_example =
    write_file_atomic-IsAllOrNothing works (codes "/FR") (codes "x") empty temp-ne

-- ===== src/Service/Database/Tests.antt =====
-- The theorems on the database at concrete engines.
use livezure.Prelude.{
  ℕ, ◌+◌, ◌≤◌, ◌==◌, ◌≡◌, refl, sym, ap, ◌∙◌, Bool, true, false, ◌||◌, if◌then◌else◌, [], ◌∷◌, ◌++◌,
  append_assoc, length, some, ok, fault, out_of_range, ◌>>=◌, Text, bytes, arith, starts_with, leb,
  sprintf, text_eq,
}
use livezure.Service.Database.{
  row, done, Provider, exists_row, must, run, is_row, is_done, rows_of, quoted,
}
use livezure.Service.Database.Users.{
  sql_basic, existence, found_user, check_user_exist, check_user_is_ok, no_user_data,
}
use livezure.Service.Database.Devices.{device_get, devices_of, sql_devices}
use livezure.Service.Database.Schema.{drop_table, reset, reset_statements, all_done}
use livezure.Service.Database.Injection.{
  is_plain, one_line, IgnoresComments, commented, any_password,
}
use livezure.Service.Database.Failures.{device_get-fits}

abbrev has_hyphen : Text → Bool
has_hyphen [] = false
has_hyphen (c ∷ text) = (45 == c) || has_hyphen text

-- A text with no hyphen in it begins a longer text only where it begins the part up to a hyphen.
starts_with-comment :
    (t rest p : Text) → has_hyphen p ≡ false → starts_with (t ++ (45 ∷ rest)) p ≡ starts_with t p
unfolding starts_with
starts_with-comment [] rest [] h = refl
starts_with-comment [] rest (y ∷ p) h = ground arith
starts_with-comment (x ∷ t) rest [] h = refl
starts_with-comment (x ∷ t) rest (y ∷ p) h = ground (arith, starts_with-comment t rest p)

-- An engine that knows one user, and counts its statements.
abbrev user_query : Text
user_query = sql_basic (bytes "r")

abbrev engine : Provider ℕ
engine = record {
  select = λ d sql. if starts_with sql user_query then row ((bytes "r" ∷ []) ∷ []) else done;
  exec = λ d sql. (done, d + 1);
  gen_hash_key = λ pwd. ok pwd;
}

ignores : IgnoresComments engine
unfolding bytes
ignores d stem name rest p q line =
    ap (λ b. if b then row ((bytes "r" ∷ []) ∷ []) else done)
      (ap (λ t. starts_with t user_query) (sym (append_assoc stem (quoted name) (45 ∷ 45 ∷ rest)))
        ∙ starts_with-comment (stem ++ quoted name) (45 ∷ rest) user_query
            (unfold sql_basic quoted in refl))

any_password_example :
    (length (commented (bytes "r")) ≤ 16)
    × (check_user_is_ok engine 0 (commented (bytes "r")) (bytes "?") existence
        ≡ ok (some (no_user_data false)))
any_password_example =
    any_password engine ignores 0 (bytes "r") (unfold is_plain bytes in refl)
      (unfold bytes in omega arith) (bytes "?") (bytes "?") existence (no_user_data false) refl
      (unfold one_line bytes in refl) (unfold bytes in omega arith)
      (unfold check_user_exist exists_row sprintf sql_basic quoted bytes starts_with is_row
          found_user in
        refl)

device_get-fits_example : device_get engine 0 (bytes "r") (some (bytes "x")) ≡ (
    if leb (length (bytes "r") + length (bytes "x")) 490
    then rows_of (engine.select 0 (sql_devices (bytes "r") (some (bytes "x")))) >>= devices_of
    else fault out_of_range)
device_get-fits_example = device_get-fits engine 0 (bytes "r") (bytes "x")

-- An engine whose state is whether t_account_basic is there.
abbrev tables : Provider Bool
tables = record {
  select = λ d sql. done;
  exec = λ d sql. (done, if text_eq sql (drop_table (bytes "t_account_basic")) then false else d);
  gen_hash_key = λ pwd. ok pwd;
}

runs : reset tables true ≡ ok true
unfolding reset reset_statements all_done must run sprintf is_done drop_table bytes text_eq
runs = refl

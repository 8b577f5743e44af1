-- ===== src/Tests/Memory/IniFile.antt =====
-- An INI file as a set of section names and a map of values.
use ovh_cli.Prelude.{
  String, Bool, true, false, Option, none, some, [], ◌≡◌, refl, arith, ◌==◌, ◌&&◌,
}
use ovh_cli.Prelude.{◌||◌, if◌then◌else◌, eq_iff}
use ovh_cli.Prelude.Dict.{Dict, lookup, insert, remove, lookup-insert, lookup-remove}
use ovh_cli.Errors.{Result, ok, err, errorf}
use ovh_cli.Platform.Ini.{Ini, IsLawful}
use ovh_cli.Tests.Memory.Blob.{Blob, ini_blob, IniFile}

unfoldable pub decode_ini : Blob → Result IniFile
decode_ini (ini_blob f) = ok f
decode_ini _ = err (errorf "ini: bad document" [])

abbrev pub keys_of : Option (Dict String) → Dict String
keys_of none = []
keys_of (some d) = d

abbrev pub text_of : Option String → String
text_of none = ""
text_of (some v) = v

abbrev pub is_there : Option (Unit {0}) → Bool
is_there none = false
is_there (some _) = true

abbrev pub section_keys : IniFile → String → Dict String
section_keys f s = keys_of (lookup s f.values)

abbrev pub raw_value : IniFile → String → String → String
raw_value f s k = text_of (lookup k (section_keys f s))

abbrev pub memory_ini : Ini Blob
memory_ini = record {
  File = IniFile;
  empty = record { names = []; values = [] };
  parse = decode_ini;
  write_to = λ f. ok (ini_blob f);
  has_section = λ f s. is_there (lookup s f.names);
  section = λ f s. record f { names = insert s tt f.names };
  key = λ f s k. f;
  raw = raw_value;
  value = raw_value;
  set_value = λ f s k v. record f { values = insert s (insert k v (section_keys f s)) f.values };
  delete_key = λ f s k. record f { values = insert s (remove k (section_keys f s)) f.values };
  delete_section = λ f s. record { names = remove s f.names; values = remove s f.values };
  is_verbatim = λ v. true;
  is_kept = λ f. true;
}

module _ (f : IniFile) (n j v s k : String) where
  raw-set :
      raw_value (memory_ini.set_value f n j v) s k
      ≡ (if (n == s) && (j == k) then v else raw_value f s k)
  raw-set = ground (
    arith,
    lookup-insert n s (insert j v (section_keys f n)) f.values,
    lookup-insert j k v (section_keys f n),
    eq_iff n s,
  )

  raw-delete_key :
      raw_value (memory_ini.delete_key f n j) s k
      ≡ (if (n == s) && (j == k) then "" else raw_value f s k)
  raw-delete_key = ground (
    arith,
    lookup-insert n s (remove j (section_keys f n)) f.values,
    lookup-remove j k (section_keys f n),
    eq_iff n s,
  )

  raw-delete_section :
      raw_value (memory_ini.delete_section f n) s k ≡ (if n == s then "" else raw_value f s k)
  unfolding lookup
  raw-delete_section = ground (arith, lookup-remove n s f.values)

  has-section :
      is_there (lookup s (insert n tt f.names)) ≡ ((n == s) || is_there (lookup s f.names))
  has-section = ground (arith, lookup-insert n s tt f.names)

  has-delete_section :
      is_there (lookup s (remove n f.names))
      ≡ (if n == s then false else is_there (lookup s f.names))
  has-delete_section = ground (arith, lookup-remove n s f.names)

decoded :
    (f : IniFile) (b : Blob)
    → memory_ini.is_kept f ≡ true
    → memory_ini.write_to f ≡ ok b
    → decode_ini b ≡ ok f
unfolding decode_ini
decoded f b k h = ground arith

pub memory_ini-IsLawful : IsLawful memory_ini
memory_ini-IsLawful = record {
  parse-write = decoded;
  kept_empty = refl;
  kept-section = λ f n k h. refl;
  kept-key = λ f n j k h hj. refl;
  kept-set = λ f n j v k h hj hv. refl;
  kept-delete_key = λ f n j k. refl;
  kept-delete_section = λ f n k. refl;
  value_lem = λ f s k h. refl;
  verbatim_empty = refl;
  raw-section = λ f n s k. refl;
  raw-key = λ f n j s k. refl;
  raw-set = raw-set;
  raw-delete_key = λ f n j s k. raw-delete_key f n j "" s k;
  raw-delete_section = λ f n s k. raw-delete_section f n "" "" s k;
  has-section = λ f n s. has-section f n "" "" s "";
  has-key = λ f n j s. refl;
  has-set = λ f n j v s. refl;
  has-delete_key = λ f n j s. refl;
  has-delete_section = λ f n s. has-delete_section f n "" "" s "";
}

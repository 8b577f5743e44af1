-- ===== src/Platform/Ini.antt =====
-- gopkg.in/ini.v1: a file of sections of keys. `raw` is `Key.Value()`, the text as stored;
-- `value` is `Key.String()`, which also expands references such as `%(name)s`.
use Prim.Native.Char.{Char, code}
use ovh_cli.Prelude.{◌≡◌, ℕ, String, Bool, true, false, not, ◌==◌, ◌&&◌, ◌||◌, if◌then◌else◌}
use ovh_cli.Prelude.Tests.{ltb}
use ovh_cli.Errors.{Result, ok}

between : ℕ → ℕ → Char → Bool
between lo hi c = not (ltb (code c) lo) && not (ltb hi (code c))

is_letter : Char → Bool
is_letter c = between 97 122 c || between 65 90 c

-- Letters, digits and `-` `.` `/` `:` `_`.
is_plain_char : Char → Bool
is_plain_char c = is_letter c || between 45 58 c || between 95 95 c

-- A text that stands in the file as it is: no quotes, comment signs, backslashes or spaces.
unfoldable pub is_plain : String → Bool
unfolding is_plain_char is_letter between
is_plain String.[] = true
is_plain (String.◌∷◌ c s) = is_plain_char c && is_plain s

-- A plain name of a section or a key.
unfoldable pub is_name : String → Bool
unfolding is_letter is_plain between
is_name String.[] = false
is_name (String.◌∷◌ c s) = is_letter c && is_plain s

pub record Ini (Bytes : Type 0) : Type 1 where
  pub File : Type 0
  pub empty : File
  pub parse : Bytes → Result File
  pub write_to : File → Result Bytes
  pub has_section : File → String → Bool
  -- `f.Section(name)` adds the section if it is not there, and `s.Key(name)` the key.
  pub section : File → String → File
  pub key : File → String → String → File
  pub raw : File → String → String → String
  pub value : File → String → String → String
  pub set_value : File → String → String → String → File
  pub delete_key : File → String → String → File
  pub delete_section : File → String → File
  -- The texts that `String` returns as they are.
  pub is_verbatim : String → Bool
  -- The files that are read back from what is written of them; a file is what the program reads of
  -- it. The library writes a text bare that stands in quotes, or that ends in a backslash, and reads
  -- another one back, so there are files that are not.
  pub is_kept : File → Bool

pub record IsLawful {B : Type 0} (I : Ini B) : Type 0 where
  pub parse-write :
      (f : I.File) (b : B) → I.is_kept f ≡ true → I.write_to f ≡ ok b → I.parse b ≡ ok f
  pub kept_empty : I.is_kept I.empty ≡ true
  pub kept-section :
      (f : I.File) (n : String)
      → I.is_kept f ≡ true
      → is_name n ≡ true
      → I.is_kept (I.section f n) ≡ true
  pub kept-key :
      (f : I.File) (n j : String)
      → I.is_kept f ≡ true
      → is_name n ≡ true
      → is_name j ≡ true
      → I.is_kept (I.key f n j) ≡ true
  pub kept-set :
      (f : I.File) (n j v : String)
      → I.is_kept f ≡ true
      → is_name n ≡ true
      → is_name j ≡ true
      → is_plain v ≡ true
      → I.is_kept (I.set_value f n j v) ≡ true
  pub kept-delete_key :
      (f : I.File) (n j : String) → I.is_kept f ≡ true → I.is_kept (I.delete_key f n j) ≡ true
  pub kept-delete_section :
      (f : I.File) (n : String) → I.is_kept f ≡ true → I.is_kept (I.delete_section f n) ≡ true
  pub value_lem :
      (f : I.File) (s k : String) → I.is_verbatim (I.raw f s k) ≡ true → I.value f s k ≡ I.raw f s k
  pub verbatim_empty : I.is_verbatim "" ≡ true
  pub raw-section : (f : I.File) (n s k : String) → I.raw (I.section f n) s k ≡ I.raw f s k
  pub raw-key : (f : I.File) (n j s k : String) → I.raw (I.key f n j) s k ≡ I.raw f s k
  pub raw-set :
      (f : I.File) (n j v s k : String)
      → I.raw (I.set_value f n j v) s k ≡ (if (n == s) && (j == k) then v else I.raw f s k)
  pub raw-delete_key :
      (f : I.File) (n j s k : String)
      → I.raw (I.delete_key f n j) s k ≡ (if (n == s) && (j == k) then "" else I.raw f s k)
  pub raw-delete_section :
      (f : I.File) (n s k : String)
      → I.raw (I.delete_section f n) s k ≡ (if n == s then "" else I.raw f s k)
  pub has-section :
      (f : I.File) (n s : String)
      → I.has_section (I.section f n) s ≡ ((n == s) || I.has_section f s)
  pub has-key : (f : I.File) (n j s : String) → I.has_section (I.key f n j) s ≡ I.has_section f s
  pub has-set :
      (f : I.File) (n j v s : String) → I.has_section (I.set_value f n j v) s ≡ I.has_section f s
  pub has-delete_key :
      (f : I.File) (n j s : String) → I.has_section (I.delete_key f n j) s ≡ I.has_section f s
  pub has-delete_section :
      (f : I.File) (n s : String)
      → I.has_section (I.delete_section f n) s ≡ (if n == s then false else I.has_section f s)

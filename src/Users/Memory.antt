-- ===== src/Users/Memory.antt =====
-- Files in memory and a codec that meet the assumptions, for the runs and the theorems at concrete
-- data. Its directory lists the records of `root` and `bob`.
use espidf_component_webmana.Prelude.{
  take-append, drop-append, ℕ, ◌≤◌, ◌≡◌, ◌≢◌, refl, sym, ◌∙◌, ap, Bool, true, false, Option, none,
  some, List, [], ◌∷◌, ◌++◌, arith, leb, leb→le, if◌then◌else◌, length, take, drop, replicate,
  Option-cases, inl, inr,
}
use mathlib.Core.Path.{subst}
use espidf_component_webmana.Esp.{eq_of_some}
use espidf_component_webmana.Prelude.Text.{Bytes, codes, same_text, same_text_iff, same_text_refl}
use espidf_component_webmana.Users.Record.{StoredUser}
use espidf_component_webmana.Users.Platform.{Entry, Platform, KeepsFiles, KeepsUsers, AllApart}

abbrev pub Files : Type 0
Files = Bytes → Option Bytes

abbrev update : Bytes → Option Bytes → Files → Files
update path content files other = if same_text path other then content else files other

abbrev listed : Bytes → Option Bytes → List Entry → List Entry
listed name none rest = rest
listed name (some content) rest = record { name = name; is_directory = false } ∷ rest

abbrev list_both : (root bob : Option Bytes) → List Entry
list_both root bob = listed (codes "root.bin") root (listed (codes "bob.bin") bob [])

abbrev listing : Files → List Entry
listing files =
    list_both (files (codes "/spiffs/users/root.bin")) (files (codes "/spiffs/users/bob.bin"))

abbrev remove : Bytes → Files → Bool × Files
remove path files = elim (files path) [
  | none ↦ (false, files)
  | some content ↦ (true, update path none files)
]

-- A text behind its length.
abbrev put : Bytes → Bytes → Bytes
put s rest = length s ∷ s ++ rest

abbrev encoded : StoredUser → Bytes
encoded u =
    1 ∷ 0 ∷ 2 ∷ 0 ∷ put u.username (put u.salt (put u.password_hash (u.roles ∷ u.epoch ∷ [])))

abbrev encode : StoredUser → Option Bytes
encode u = if leb (length (encoded u)) 512 then some (encoded u) else none

abbrev get : Bytes → Bytes × Bytes
get [] = ([], [])
get (n ∷ s) = (take n s, drop n s)

abbrev numbers : Bytes → ℕ × ℕ
numbers [] = (0, 0)
numbers (a ∷ []) = (a, 0)
numbers (a ∷ b ∷ s) = (a, b)

abbrev decode : Bytes → Option StoredUser
decode s =
    let (username, s₁) = get (drop 4 s) in
    let (salt, s₂) = get s₁ in
    let (password_hash, s₃) = get s₂ in
    let (roles, epoch) = numbers s₃ in
    some (record {
      username = username;
      salt = salt;
      password_hash = password_hash;
      roles = roles;
      epoch = epoch;
    })

abbrev pub memory : Platform
memory = record {
  World = Files;
  fill_random = λ w. (replicate 16 7, w);
  sha256 = λ text. text;
  mkdir = λ path w. w;
  fopen_rb = λ path w. w path;
  fopen_wb = λ path w. (true, update path (some []) w);
  fwrite = λ path bytes w. (length bytes, update path (some bytes) w);
  unlink = remove;
  opendir = λ path w. some (listing w);
  namespace_id = 1;
  type_id = 2;
  encode = encode;
  decode = decode;
}

update_self : (path : Bytes) (c : Option Bytes) (files : Files) → update path c files path ≡ c
update_self path c files = rw (same_text_refl path) refl

update_ne :
    (path other : Bytes) (c : Option Bytes) (files : Files)
    → path ≢ other
    → update path c files other ≡ files other
update_ne path other c files ne = ground (arith, same_text_iff path other)

decode-encoded : (u : StoredUser) → decode (encoded u) ≡ some u
decode-encoded u =
    let tail = u.roles ∷ u.epoch ∷ [] in
    rw
      (
        take-append u.username (put u.salt (put u.password_hash tail)),
        drop-append u.username (put u.salt (put u.password_hash tail)),
        take-append u.salt (put u.password_hash tail),
        drop-append u.salt (put u.password_hash tail),
        take-append u.password_hash tail,
        drop-append u.password_hash tail,
      )
      refl

encode-eq-some : (u : StoredUser) (bytes : Bytes) → encode u ≡ some bytes → encoded u ≡ bytes
encode-eq-some u bytes e = ground arith

encode-length :
    (u : StoredUser) (bytes : Bytes)
    → encode u ≡ some bytes
    → (4 ≤ length bytes) × (length bytes ≤ 512)
encode-length u bytes e =
    let fits : length (encoded u) ≤ 512 = ground (arith, leb→le (length (encoded u)) 512) in
    rw (sym (encode-eq-some u bytes e)) (omega arith, fits)

pub memory-KeepsUsers : KeepsUsers memory
memory-KeepsUsers = record {
  decode-encode = λ u bytes e. rw (sym (encode-eq-some u bytes e)) (decode-encoded u);
  length-encode = encode-length;
  header-encode = λ u bytes e. rw (sym (encode-eq-some u bytes e)) (refl, refl);
}

remove_ne :
    (path other : Bytes) (files : Files) → path ≢ other → (remove path files).1 other ≡ files other
remove_ne path other files ne = ground (arith, update_ne path other none files ne)

read-fwrite :
    (path bytes : Bytes) (w₁ w₂ w₃ : Files)
    → ◌≡◌ {A = Bool × Files} (true, update path (some []) w₁) (true, w₂)
    → ◌≡◌ {A = ℕ × Files} (length bytes, update path (some bytes) w₂) (length bytes, w₃)
    → w₃ path ≡ some bytes
read-fwrite path bytes w₁ w₂ w₃ e f = ap (λ r. r.1 path) (sym f) ∙ update_self path (some bytes) w₂

read-remove : (path : Bytes) (w w' : Files) → remove path w ≡ (true, w') → w' path ≡ none
read-remove path w w' e = elim (Option-cases (w path)) [
  | inl missing ↦ absurd (ground arith)
  | inr (content, found) ↦
      let same : update path none w ≡ w' = ground arith in
      ap (λ f. f path) (sym same) ∙ update_self path none w
]

read-remove_failed :
    (path other : Bytes) (w w' : Files) → remove path w ≡ (false, w') → w' other ≡ w other
read-remove_failed path other w w' e = elim (Option-cases (w path)) [
  | inl missing ↦ let same : w ≡ w' = ground arith in ap (λ f. f other) (sym same)
  | inr (content, found) ↦ absurd (ground arith)
]

two_names : codes "root.bin" ≢ codes "bob.bin"
two_names e = cc

list_both-AllApart : (root bob : Option Bytes) → AllApart (list_both root bob)
list_both-AllApart none none = tt
list_both-AllApart none (some b) = (tt, tt)
list_both-AllApart (some r) none = (tt, tt)
list_both-AllApart (some r) (some b) = ((two_names, tt), (tt, tt))

pub memory-KeepsFiles : KeepsFiles memory
memory-KeepsFiles = record {
  read-fwrite = read-fwrite;
  read-fopen_wb_ne = λ path other w. update_ne path other (some []) w;
  read-fwrite_ne = λ path other bytes w. update_ne path other (some bytes) w;
  read-unlink_ne = remove_ne;
  read-unlink = read-remove;
  read-unlink_failed = read-remove_failed;
  read-mkdir = λ path other w. refl;
  read-fill_random = λ other w. refl;
  opendir-AllApart = λ path w es e.
      subst AllApart (eq_of_some e) (
        list_both-AllApart (w (codes "/spiffs/users/root.bin"))
          (w (codes "/spiffs/users/bob.bin")));
}

-- ===== src/Sknyfs/Files/Entry.antt =====
-- The bytes of the entry that sknyCreateFile makes, and what kstrcmp says of them.
use mathlib.Core.List.{append_assoc}
use palley_os.Prelude.{
  ℕ, zero, suc, ◌+◌, ◌-◌, ◌≤◌, ◌<◌, ◌≡◌, refl, ap, ◌∙◌, ◌⊎◌, inr, some, List, [], ◌∷◌, ◌++◌, arith,
  length, take, replicate, length-append, length-replicate, length-take,
}
use palley_os.Prelude.Memory.{Mem, CStr, store, CStr-agree}
use palley_os.Kstdlib.{kmemset, kstrcmp}
use palley_os.Kstdlib.Fill.{kmemset_lem}
use palley_os.Kstdlib.Strings.{Copied}
use palley_os.Kstdlib.Compare.{Starts, kstrcmp-zero_iff}
use palley_os.Sknyfs.{bytes_at, metadata_size, name_size}
use palley_os.Sknyfs.Files.{le32, load_bytes}
use palley_os.Sknyfs.Files.Named.{load_bytes-first}

-- The name that is kept, of at most 251 characters.
abbrev pub kept : List ℕ → List ℕ
kept s = take (name_size - 1) s

-- The entry that a file of this name and this chunk is meant to have: the name, NULs up to 252
-- bytes, and the number of the chunk.
abbrev pub named_entry : List ℕ → ℕ → List ℕ
named_entry s n = (kept s ++ replicate (name_size - length (kept s)) 0) ++ le32 n

length-kept : (s : List ℕ) → length (kept s) < name_size
length-kept s = omega (arith, length-take 251 s)

pub length-named_entry : (s : List ℕ) (n : ℕ) → length (named_entry s n) ≡ metadata_size
length-named_entry s n = omega (
  arith,
  length-append (kept s ++ replicate (name_size - length (kept s)) 0) (le32 n),
  length-append (kept s) (replicate (name_size - length (kept s)) 0),
  length-replicate (name_size - length (kept s)) (◌+◌ 0 0),
  length-kept s,
)

bytes_at-zeros :
    (m : Mem) (p num : ℕ)
    → ((a : ℕ) → p ≤ a → a < p + num → m a ≡ 0)
    → bytes_at m p num ≡ replicate num 0
unfolding bytes_at
bytes_at-zeros m p zero zeros = refl
bytes_at-zeros m p (suc num) zeros =
    rw
      (
        zeros p (omega arith) (omega arith),
        bytes_at-zeros m (p + 1) num (λ a lo hi. zeros a (omega arith) (omega arith)),
      )
      refl

bytes_at-CStr :
    (m : Mem) (p num : ℕ) (t : List ℕ)
    → CStr m p t
    → length t ≤ num
    → ((a : ℕ) → p + length t ≤ a → a < p + num → m a ≡ 0)
    → bytes_at m p num ≡ t ++ replicate (num - length t) 0
unfolding bytes_at
bytes_at-CStr m p num [] h fits zeros =
    let all : num - 0 ≡ num = omega arith in
    rw all (bytes_at-zeros m p num (λ a lo hi. zeros a (omega arith) hi))
bytes_at-CStr m p zero (c ∷ t) h fits zeros = absurd (omega arith)
bytes_at-CStr m p (suc num) (c ∷ t) h fits zeros =
    let left : suc num - suc (length t) ≡ num - length t = omega arith in
    rw
      (
        left,
        h.0,
        bytes_at-CStr m (p + 1) num t h.3 (omega arith)
            (λ a lo hi. zeros a (omega arith) (omega arith)),
      )
      refl

CStr-nul : (m : Mem) (p : ℕ) (t : List ℕ) → CStr m p t → m (p + length t) ≡ 0
CStr-nul m p [] h = ap m (omega arith) ∙ h
CStr-nul m p (c ∷ t) h = ap m (omega arith) ∙ CStr-nul m (p + 1) t h.3

-- The buffer of the entry after the copy of the name.
pub bytes_at-Copied :
    (m after : Mem) (p : ℕ) (s : List ℕ)
    → Copied (kmemset m p 0 name_size) p (kept s) after
    → bytes_at after p name_size ≡ kept s ++ replicate (name_size - length (kept s)) 0
bytes_at-Copied m after p s copied =
    bytes_at-CStr after p name_size (kept s) copied.there (omega (arith, length-kept s)) (λ a lo hi.
      ground (
        arith,
        copied.same a,
        kmemset_lem m p 0 name_size a,
        CStr-nul after p (kept s) copied.there,
      ))

load_bytes-outside :
    (m : Mem) (p a : ℕ) (bs : List ℕ) → (a < p) ⊎ (p + length bs ≤ a) → load_bytes m p bs a ≡ m a
unfolding load_bytes
load_bytes-outside m p a [] out = refl
load_bytes-outside m p a (b ∷ bs) out =
    load_bytes-outside (store m p b) (p + 1) a bs (ground arith) ∙ ground arith

CStr-load_bytes :
    (m m0 : Mem) (p q : ℕ) (t rest : List ℕ)
    → CStr m0 q t
    → CStr (load_bytes m p (t ++ 0 ∷ rest)) p t
unfolding load_bytes
CStr-load_bytes m m0 p q [] rest h = load_bytes-first m p 0 rest
CStr-load_bytes m m0 p q (c ∷ t) rest h = (
  load_bytes-first m p c (t ++ 0 ∷ rest),
  h.1,
  h.2,
  CStr-load_bytes (store m p c) m0 (p + 1) (q + 1) t rest h.3,
)

Starts-take : (k : ℕ) (s : List ℕ) → Starts (take k s) s
Starts-take zero s = tt
Starts-take (suc k) [] = tt
Starts-take (suc k) (c ∷ s) = (refl, Starts-take k s)

named_entry-nul : (s : List ℕ) (n : ℕ) → (rest : List ℕ) × (named_entry s n ≡ kept s ++ 0 ∷ rest)
named_entry-nul s n =
    let more : name_size - length (kept s) ≡ suc (name_size - 1 - length (kept s)) =
      omega (arith, length-kept s) in
    let zeros : List ℕ = replicate (name_size - 1 - length (kept s)) 0 in
    (zeros ++ le32 n, rw more (append_assoc (kept s) (0 ∷ zeros) (le32 n)))

-- kstrcmp takes the entry for the name.
pub kstrcmp-named_entry :
    (fuel : ℕ) (m m0 : Mem) (name file q n : ℕ) (s : List ℕ)
    → CStr m name s
    → CStr m0 q (kept s)
    → length s < fuel
    → (file + metadata_size ≤ name) ⊎ (name + length s < file)
    → kstrcmp fuel (load_bytes m file (named_entry s n)) name file ≡ some 0
kstrcmp-named_entry fuel m m0 name file q n s named held enough apart =
    let loaded : Mem = load_bytes m file (named_entry s n) in
    let (rest, e) = named_entry-nul s n in
    let there : CStr loaded file (kept s) = rw e (CStr-load_bytes m m0 file q (kept s) rest held) in
    let kept_name : CStr loaded name s =
      CStr-agree m loaded name s
        (λ a lo hi.
          load_bytes-outside m file a (named_entry s n) (ground (arith, length-named_entry s n)))
        named in
    (kstrcmp-zero_iff fuel loaded name file s (kept s) kept_name there enough).1
      (inr (Starts-take 251 s))

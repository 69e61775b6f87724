-- ===== src/Tests/Codecs.antt =====
-- A serialisation of the values that the programs exchange, over which the tests run: it meets what
-- `Rpc.Codec` asks for.
use Prim.Native.Char.{Char, char, code, IsScalar, IsLt}
use Prim.Native.Nat.{compare, Ordering}
use Prim.Native.String.{String}
use mathlib.Core.List.{append-nil, append_assoc}
use mathlib.Core.Option
use mathlib.Core.Option.{some-injective}
use text.Mathlib.TextEquality.{IsScalar-prop}
use blobseer.PManager
use blobseer.VManager
use blobseer.VManager.{Reply}
use blobseer.VManager.Intervals.{Entry}
use blobseer.Structures.{Query, Root, Provider, TreeNode}
use blobseer.Rpc.{Buffer, Codec}
use blobseer.Prelude.{
  ℕ, zero, suc, ◌≡◌, refl, ap, Bool, true, false, Option, none, some, List, [], ◌∷◌, ◌++◌, length,
  arith,
}

abbrev BothBelow : Ordering → Ordering → Type 0
BothBelow Ordering.lt o = IsLt o
BothBelow Ordering.eq _ = ⊥
BothBelow Ordering.gt _ = ⊥

abbrev Scalar : Ordering → Ordering → Ordering → Type 0
Scalar Ordering.lt _ _ = Unit
Scalar Ordering.eq o p = BothBelow o p
Scalar Ordering.gt o p = BothBelow o p

both_below : (o p : Ordering) → Dec (BothBelow o p)
both_below Ordering.lt Ordering.lt = yes tt
both_below Ordering.lt Ordering.eq = no (λ h. h)
both_below Ordering.lt Ordering.gt = no (λ h. h)
both_below Ordering.eq _ = no (λ h. h)
both_below Ordering.gt _ = no (λ h. h)

scalar : (o p q : Ordering) → Dec (Scalar o p q)
unfolding both_below
scalar Ordering.lt p q = yes tt
scalar Ordering.eq p q = both_below p q
scalar Ordering.gt p q = both_below p q

-- The character of a number, if it has one.
unfoldable pub decode_char : (n : ℕ) → Option Char
unfolding scalar
decode_char n = elim (scalar (compare n 55296) (compare 57343 n) (compare n 1114112)) [
  | yes h ↦ some (char n h)
  | no h ↦ none
]

pub decode_char-code : (c : Char) → decode_char (code c) ≡ some c
unfolding decode_char
decode_char-code (char n h) = go (scalar (compare n 55296) (compare 57343 n) (compare n 1114112))
  where
    go :
        (d : Dec (IsScalar n))
        → (elim d as (λ _. Option Char) [ yes k ↦ some (char n k) | no k ↦ none ]) ≡ some (char n h)
    go (yes k) = ap (λ x. some (char n x)) (IsScalar-prop n k h)
    go (no k) = absurd (k h)

-- A type with a serialisation that tells where it ends.
pub record Pack (A : Type 0) : Type 0 where
  pub write : A → List ℕ
  pub read : List ℕ → Option (A × List ℕ)
  pub read-write : (a : A) (rest : List ℕ) → read (write a ++ rest) ≡ some (a, rest)

abbrev finished : {A : Type 0} → Option (A × List ℕ) → Option A
finished none = none
finished (some (a, [])) = some a
finished (some (a, x ∷ xs)) = none

-- With a first number, so that no text is empty.
abbrev unframed : {A : Type 0} → Pack A → Buffer → Option A
unframed p [] = none
unframed p (x ∷ b) = finished (p.read b)

abbrev pub codec : {A : Type 0} → Pack A → Codec A
codec p = record {
  encode = λ a. 0 ∷ p.write a;
  decode = unframed p;
  decode-encode = λ a. rw (← append-nil (p.write a), p.read-write a []) refl;
  encode_pos = λ a. omega arith;
}

abbrev read_number : List ℕ → Option (ℕ × List ℕ)
read_number [] = none
read_number (n ∷ rest) = some (n, rest)

abbrev pub number : Pack ℕ
number = record { write = λ n. n ∷ []; read = read_number; read-write = λ n rest. refl }

-- A type written as another.
abbrev pub via :
    {A B : Type 0} (to : A → B) (from : B → Option A)
    → ((a : A) → from (to a) ≡ some a)
    → Pack B
    → Pack A
via to from back p = record {
  write = λ a. p.write (to a);
  read =
      λ l. elim (p.read l) [ none ↦ none | some (b, rest) ↦ Option.map (λ a. (a, rest)) (from b) ];
  read-write = λ a rest. rw (p.read-write (to a) rest, back a) refl;
}

abbrev pub pair : {A B : Type 0} → Pack A → Pack B → Pack (A × B)
pair p q = record {
  write = λ (a, b). p.write a ++ q.write b;
  read = λ l. elim (p.read l) [
    | none ↦ none
    | some (a, rest) ↦ Option.map (λ (b, more). ((a, b), more)) (q.read rest)
  ];
  read-write = λ e rest.
      rw
        (
          append_assoc (p.write e.0) (q.write e.1) rest,
          p.read-write e.0 (q.write e.1 ++ rest),
          q.read-write e.1 rest,
        )
        refl;
}

abbrev write_all : {A : Type 0} → Pack A → List A → List ℕ
write_all p [] = []
write_all p (a ∷ xs) = p.write a ++ write_all p xs

abbrev read_all : {A : Type 0} → Pack A → ℕ → List ℕ → Option (List A × List ℕ)
read_all p zero l = some ([], l)
read_all p (suc n) l = elim (p.read l) [
  | none ↦ none
  | some (a, rest) ↦ Option.map (λ (xs, more). (a ∷ xs, more)) (read_all p n rest)
]

pub read_all-write_all :
    {A : Type 0} (p : Pack A) (xs : List A) (rest : List ℕ)
    → read_all p (length xs) (write_all p xs ++ rest) ≡ some (xs, rest)
read_all-write_all p [] rest = refl
read_all-write_all p (a ∷ xs) rest =
    rw
      (
        append_assoc (p.write a) (write_all p xs) rest,
        p.read-write a (write_all p xs ++ rest),
        read_all-write_all p xs rest,
      )
      refl

abbrev read_counted : {A : Type 0} → Pack A → List ℕ → Option (List A × List ℕ)
read_counted p [] = none
read_counted p (n ∷ l) = read_all p n l

abbrev pub list : {A : Type 0} → Pack A → Pack (List A)
list p = record {
  write = λ xs. length xs ∷ write_all p xs;
  read = read_counted p;
  read-write = read_all-write_all p;
}

abbrev character : Pack Char
character = via code decode_char decode_char-code number

abbrev chars : String → List Char
chars String.[] = []
chars (String.◌∷◌ c s) = c ∷ chars s

abbrev of_chars : List Char → String
of_chars [] = String.[]
of_chars (c ∷ cs) = String.◌∷◌ c (of_chars cs)

pub of_chars-chars : (s : String) → some (of_chars (chars s)) ≡ some s
of_chars-chars String.[] = refl
of_chars-chars (String.◌∷◌ c s) =
    ap (λ t. some (String.◌∷◌ c t)) (some-injective _ _ (of_chars-chars s))

abbrev pub words : Pack String
words = via chars (λ l. some (of_chars l)) of_chars-chars (list character)

abbrev of_bit : ℕ → Option Bool
of_bit zero = some false
of_bit (suc n) = some true

abbrev bit : Bool → ℕ
bit true = 1
bit false = 0

pub of_bit-bit : (b : Bool) → of_bit (bit b) ≡ some b
of_bit-bit true = refl
of_bit-bit false = refl

abbrev pub flag : Pack Bool
flag = via bit of_bit of_bit-bit number

abbrev pub query : Pack Query
query =
    via (λ q. ((q.id, q.version), (q.offset, q.size)))
      (λ ((i, v), (o, s)). some (record { id = i; version = v; offset = o; size = s })) (λ q. refl)
      (pair (pair number number) (pair number number))

abbrev pub root : Pack Root
root =
    via (λ r. (r.node, (r.page_size, (r.current_size, r.replica_count))))
      (λ (n, (p, (c, k))).
        some (record { node = n; replica_count = k; current_size = c; page_size = p }))
      (λ q. refl) (pair query (pair number (pair number number)))

abbrev pub tree_node : Pack TreeNode
tree_node =
    via (λ n. (n.left, (n.right, n.is_leaf)))
      (λ (l, (r, b)). some (record { is_leaf = b; left = l; right = r })) (λ n. refl)
      (pair query (pair query flag))

abbrev entry : Pack Entry
entry =
    via (λ e. (e.key, (e.root, e.completed)))
      (λ (k, (r, c)). some (record { key = k; root = r; completed = c })) (λ q. refl)
      (pair query (pair root flag))

abbrev pub reply : Pack Reply
reply =
    via (λ r. (r.intervals, (r.stable_root, r.root_size)))
      (λ (i, (s, z)). some (record { intervals = i; root_size = z; stable_root = s })) (λ q. refl)
      (pair (list entry) (pair root number))

abbrev pub provider : Pack Provider
provider =
    via (λ r. (r.host, r.service)) (λ (h, s). some (record { host = h; service = s })) (λ q. refl)
      (pair words words)

-- The types of the version manager's RPCs.
abbrev pub version_manager : VManager.Codecs
version_manager = record {
  word32 = codec number;
  word64 = codec number;
  flag = codec flag;
  query = codec query;
  root = codec root;
  reply = codec reply;
}

-- The types of the provider manager's RPCs.
abbrev pub provider_manager : PManager.Codecs
provider_manager = record {
  word32 = codec number;
  word64 = codec number;
  text = codec words;
  replica_list = codec (list provider);
}

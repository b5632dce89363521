-- ===== src/Paths.antt =====
-- Paths as bytes: `path.Clean` and `strings.Split` of Go's standard library, as internal/locks and
-- internal/identity call them.
use ludock.Common.{
  ℕ, Bool, true, false, List, [], ◌∷◌, ◌++◌, ◌||◌, ◌==◌, Bytes, bytes_eq, nat_beq, codes,
  if◌then◌else◌, is_empty,
}

abbrev pub slash : ℕ
slash = b'/'

-- `strings.Split(p, "/")`; `word` is the component that is being read.
unfoldable pub split_from : Bytes → Bytes → List Bytes
split_from word [] = word ∷ []
split_from word (c ∷ p) =
    let ended = word ∷ split_from [] p in
    let longer = split_from (word ++ c ∷ []) p in if nat_beq c slash then ended else longer

abbrev pub dot : Bytes
dot = codes "."

abbrev pub dot_dot : Bytes
dot_dot = codes ".."

-- `..` takes the last component off, and stays where there is none to take off a relative path.
abbrev pub pop_component : Bool → List Bytes → List Bytes
pop_component rooted [] = if rooted then [] else dot_dot ∷ []
pop_component rooted (top ∷ below) = if top == dot_dot then dot_dot ∷ top ∷ below else below

-- One component onto those kept, the last on top.
abbrev pub push_component : Bool → List Bytes → Bytes → List Bytes
push_component rooted stack c =
    if is_empty c || c == dot
    then stack
    else if c == dot_dot
    then pop_component rooted stack
    else c ∷ stack

unfoldable pub push_all : Bool → List Bytes → List Bytes → List Bytes
push_all rooted stack [] = stack
push_all rooted stack (c ∷ cs) = push_all rooted (push_component rooted stack c) cs

abbrev pub reverse_onto {ℓ} : {A : Type ℓ} → List A → List A → List A
reverse_onto [] ys = ys
reverse_onto (x ∷ xs) ys = reverse_onto xs (x ∷ ys)

-- `/a/b` for the components `a`, `b`; the root is `/`.
unfoldable pub join : List Bytes → Bytes
join [] = []
join (c ∷ cs) = slash ∷ c ++ join cs

abbrev pub rooted_path : List Bytes → Bytes
rooted_path [] = slash ∷ []
rooted_path (c ∷ cs) = join (c ∷ cs)

abbrev pub relative_path : List Bytes → Bytes
relative_path [] = dot
relative_path (c ∷ cs) = c ++ join cs

-- The components that `path.Clean` keeps.
unfoldable pub components : Bool → Bytes → List Bytes
unfolding split_from push_all
components rooted p = reverse_onto (push_all rooted [] (split_from [] p)) []

abbrev pub is_rooted : Bytes → Bool
is_rooted [] = false
is_rooted (c ∷ p) = nat_beq c slash

unfoldable pub clean : Bytes → Bytes
unfolding components join
clean p =
    if is_rooted p then rooted_path (components true p) else relative_path (components false p)

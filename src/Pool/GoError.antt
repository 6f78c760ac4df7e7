-- ===== src/Pool/GoError.antt =====
-- Errors of Go as `errors.Is`, `errors.As` and `errors.Unwrap` read them, for `logError` of
-- internal/adapter/worker/pool.go and `logFailure` of cmd/fx-quotes/main.go.
use fx_quotes.Prelude.{◌≡◌, refl, Bool, false, ◌||◌, List, [], ◌∷◌, ◌++◌, map, Option, none, some}
use fx_quotes.Text.{Text}

-- One error of a tree: the text that `Error` gives, what `%T` prints, whether it is
-- `context.DeadlineExceeded` or `context.Canceled`, and what its `SQLState` gives, if it has one.
pub record Link : Type 0 where
  pub text : Text
  pub type_name : Text
  pub is_deadline : Bool
  pub is_canceled : Bool
  pub sql_state : Option Text

-- An error wraps none, one (`Unwrap() error`) or many (`Unwrap() []error`, as of `errors.Join`).
mutual
  pub data GoError : Type 0 where
    plain : Link → GoError
    wraps : Link → GoError → GoError
    joins : Link → GoErrors → GoError

  pub data GoErrors : Type 0 where
    nil : GoErrors
    cons : GoError → GoErrors → GoErrors

-- The tree in the order in which `errors.Is` and `errors.As` go through it: an error before those
-- that it wraps, each of these with its own before the next.
unfoldable mutual
  pub links : GoError → List Link
  links (plain l) = l ∷ []
  links (wraps l e) = l ∷ links e
  links (joins l es) = l ∷ links_of es

  pub links_of : GoErrors → List Link
  links_of nil = []
  links_of (cons e es) = links e ++ links_of es

-- `errors.Is`: some error of the tree passes the test.
unfoldable pub any_link : (Link → Bool) → List Link → Bool
any_link test [] = false
any_link test (l ∷ ls) = test l || any_link test ls

-- `errors.As` for `interface{ SQLState() string }`: the first error of the tree that has the method.
unfoldable pub first_state : List Link → Option Text
first_state [] = none
first_state (l ∷ ls) = state_or l.sql_state (first_state ls)
  where
    state_or : Option Text → Option Text → Option Text
    state_or none rest = rest
    state_or (some code) rest = some code

-- The loop on `errors.Unwrap`, which gives nothing for an error that wraps many.
unfoldable pub root : GoError → Link
root (plain l) = l
root (wraps l e) = root e
root (joins l es) = l

-- The same tree with other texts.
abbrev pub reword_link : (Text → Text) → Link → Link
reword_link f l = record {
  text = f l.text;
  type_name = l.type_name;
  is_deadline = l.is_deadline;
  is_canceled = l.is_canceled;
  sql_state = l.sql_state;
}

unfoldable mutual
  pub reword : (Text → Text) → GoError → GoError
  reword f (plain l) = plain (reword_link f l)
  reword f (wraps l e) = wraps (reword_link f l) (reword f e)
  reword f (joins l es) = joins (reword_link f l) (reword_all f es)

  pub reword_all : (Text → Text) → GoErrors → GoErrors
  reword_all f nil = nil
  reword_all f (cons e es) = cons (reword f e) (reword_all f es)

map-++ : (f : Link → Link) (xs ys : List Link) → map f (xs ++ ys) ≡ map f xs ++ map f ys
map-++ f [] ys = refl
map-++ f (x ∷ xs) ys = rw (map-++ f xs ys)

mutual
  unfolding links reword

  links-reword_tree :
      (f : Text → Text) (e : GoError) → links (reword f e) ≡ map (reword_link f) (links e)
  links-reword_tree f (plain l) = refl
  links-reword_tree f (wraps l e) = rw (links-reword_tree f e)
  links-reword_tree f (joins l es) = rw (links_of-reword_all f es)

  links_of-reword_all :
      (f : Text → Text) (es : GoErrors)
      → links_of (reword_all f es) ≡ map (reword_link f) (links_of es)
  links_of-reword_all f nil = refl
  links_of-reword_all f (cons e es) = rw (
    links-reword_tree f e,
    links_of-reword_all f es,
    map-++ (reword_link f) (links e) (links_of es),
  )

pub links-reword :
    (f : Text → Text) (e : GoError) → links (reword f e) ≡ map (reword_link f) (links e)
links-reword f e = links-reword_tree f e

pub root-reword : (f : Text → Text) (e : GoError) → root (reword f e) ≡ reword_link f (root e)
unfolding root reword
root-reword f (plain l) = refl
root-reword f (wraps l e) = root-reword f e
root-reword f (joins l es) = refl

-- A test that does not read texts.
pub any_link-map :
    (test : Link → Bool) (f : Link → Link)
    → ((l : Link) → test (f l) ≡ test l)
    → (ls : List Link) → any_link test (map f ls) ≡ any_link test ls
unfolding any_link
any_link-map test f same [] = refl
any_link-map test f same (l ∷ ls) = rw (same l, any_link-map test f same ls)

pub first_state-map :
    (f : Text → Text) (ls : List Link) → first_state (map (reword_link f) ls) ≡ first_state ls
unfolding first_state
first_state-map f [] = refl
first_state-map f (l ∷ ls) = rw (first_state-map f ls)

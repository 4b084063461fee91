-- ===== src/Loading/Laws.antt =====
-- Which files are loaded, and what the servers have in the end.
use ryba.Base.{
  String, eq_iff, ◌==◌, ◌≡◌, refl, sym, ap, ◌∙◌, subst, Bool, true, false, not, List, [], ◌∷◌, ◌++◌,
  map, inl, inr, Bool-cases, if◌then◌else◌,
}
use ryba.Js.{
  Value, undefined, null, bool, num, str, obj, arr, func, Fields, end, field, Result, ok, ◌>>=◌,
  traverse, filter_ok, is_nullish, get,
}
use ryba.Js.Laws.{>>=-eq-ok, ok-injective, get-put_self, get-put_ne}
use ryba.Text.{first_label}
use ryba.Loading.{
  FileSystem, is_hidden, default_property, server_defaults, default_servers, load_entry,
  load_entries, load_path, load_paths,
}

module _ (system : FileSystem) where
  -- A visible entry of a directory that is no directory.
  abbrev pub is_config : String → String → Result Bool
  is_config location file =
      if is_hidden file
      then ok false
      else (system.is_directory (system.resolve_in location file) >>= λ directory.
          ok (not directory))

  -- The files that a path stands for: itself, or the entries of the directory, in its order.
  abbrev pub locate_in : String → Bool → Result (List String)
  locate_in location false = ok (location ∷ [])
  locate_in location true = system.readdir location >>= filter_ok (is_config location) >>= λ files.
      ok (map (system.resolve_in location) files)

  abbrev pub locate : String → Result (List String)
  locate path =
      let location = system.resolve_in system.cwd path in
      system.is_directory location >>= locate_in location

  abbrev pub locate_all : List String → Result (List String)
  locate_all [] = ok []
  locate_all (path ∷ paths) =
      locate path >>= λ files. locate_all paths >>= λ rest. ok (files ++ rest)

-- Two lists are loaded one after the other.
traverse-append :
    (load : String → Result Value) (xs ys : List String) (vs ws : List Value)
    → traverse load xs ≡ ok vs
    → traverse load ys ≡ ok ws
    → traverse load (xs ++ ys) ≡ ok (vs ++ ws)
traverse-append load [] ys vs ws h l = l ∙ ap (λ v. ok (v ++ ws)) (ok-injective h)
traverse-append load (x ∷ xs) ys vs ws h l =
    let (v, loaded, h1) = >>=-eq-ok (load x) _ h in
    let (rest, later, same) = >>=-eq-ok (traverse load xs) _ h1 in
    rw (loaded, traverse-append load xs ys rest ws later l)
      (ap (λ v. ok (v ++ ws)) (ok-injective same))

module _ (system : FileSystem) (load : String → Result Value) where
  -- What is loaded is what the located files hold.
  abbrev IsLoaded : Result (List String) → List Value → Type 0
  IsLoaded located vs = (files : List String) × (located ≡ ok files) × (traverse load files ≡ ok vs)

  load_entry-IsLoaded :
      (location file : String) (one : List Value)
      → load_entry system load location file ≡ ok one
      → (b : Bool) × (is_config system location file ≡ ok b)
        × (traverse load (if b then system.resolve_in location file ∷ [] else []) ≡ ok one)
  unfolding load_entry
  load_entry-IsLoaded location file one h = elim (Bool-cases (is_hidden file)) [
    | inl hidden ↦ (false, rw hidden refl, rw (hidden, load_entry) at h)
    | inr visible ↦
        let (directory, found, h1) =
          >>=-eq-ok (system.is_directory (system.resolve_in location file)) _
            (rw (visible, load_entry) at h) in
        (not directory, rw (visible, found) refl, of_file directory h1)
  ]
    where
      of_file :
          (directory : Bool)
          → (if directory
              then ok []
              else (load (system.resolve_in location file) >>= λ v. ok (v ∷ [])))
            ≡ ok one
          → traverse load (if not directory then system.resolve_in location file ∷ [] else [])
            ≡ ok one
      of_file true e = e
      of_file false e = e

  load_entries-IsLoaded :
      (location : String) (files : List String) (vs : List Value)
      → load_entries system load location files ≡ ok vs
      → IsLoaded
          (filter_ok (is_config system location) files >>= λ kept.
            ok (map (system.resolve_in location) kept))
          vs
  unfolding load_entries
  load_entries-IsLoaded location [] vs h = ([], refl, h)
  load_entries-IsLoaded location (file ∷ files) vs h =
      let (one, loaded, h1) = >>=-eq-ok (load_entry system load location file) _ h in
      let (rest, later, same) = >>=-eq-ok (load_entries system load location files) _ h1 in
      let (located, found, there) = load_entries-IsLoaded location files rest later in
      let (kept, kept_ok, mapped) =
        >>=-eq-ok (filter_ok (is_config system location) files) _ found in
      let (b, is_one, own) = load_entry-IsLoaded location file one loaded in
      let all_files = (if b then file ∷ kept else kept) in
      (
        map (system.resolve_in location) all_files,
        rw (is_one, kept_ok) refl,
        rw (map_if b file kept) (
            traverse-append load (if b then system.resolve_in location file ∷ [] else [])
              (map (system.resolve_in location) kept) one rest own
              (subst (λ l. traverse load l ≡ ok rest) (sym (ok-injective mapped)) there)
            ∙ same),
      )
    where
      map_if :
          (b : Bool) (file : String) (kept : List String)
          → map (system.resolve_in location) (if b then file ∷ kept else kept)
            ≡ (if b then system.resolve_in location file ∷ [] else [])
              ++ map (system.resolve_in location) kept
      map_if true file kept = refl
      map_if false file kept = refl

  load_path-IsLoaded :
      (path : String) (vs : List Value)
      → load_path system load path ≡ ok vs
      → IsLoaded (locate system path) vs
  unfolding load_path
  load_path-IsLoaded path vs h =
      let location = system.resolve_in system.cwd path in
      let (directory, found, h1) = >>=-eq-ok (system.is_directory location) _ h in
      subst (λ r. IsLoaded (r >>= locate_in system location) vs) (sym found)
        (of_kind location directory h1)
    where
      of_kind :
          (location : String) (directory : Bool)
          → (if directory
              then (system.readdir location >>= load_entries system load location)
              else (load location >>= λ v. ok (v ∷ [])))
            ≡ ok vs
          → IsLoaded (locate_in system location directory) vs
      of_kind location false e = (location ∷ [], refl, e)
      of_kind location true e =
          let (files, listed, e1) = >>=-eq-ok (system.readdir location) _ e in
          subst
            (λ r.
              IsLoaded
                (r >>= filter_ok (is_config system location) >>= λ kept.
                  ok (map (system.resolve_in location) kept))
                vs)
            (sym listed) (load_entries-IsLoaded location files vs e1)

  -- If the files of the configuration are loaded, they are, in order, those that the paths stand for: a path
  -- to a file stands for itself, and one to a directory for its entries that are neither hidden nor
  -- directories.
  pub load_paths-locate_all :
      (paths : List String) (vs : List Value)
      → load_paths system load paths ≡ ok vs
      → (files : List String) × (locate_all system paths ≡ ok files) × (traverse load files ≡ ok vs)
  unfolding load_paths
  load_paths-locate_all [] vs h = ([], refl, h)
  load_paths-locate_all (path ∷ paths) vs h =
      let (one, loaded, h1) = >>=-eq-ok (load_path system load path) _ h in
      let (rest, later, same) = >>=-eq-ok (load_paths system load paths) _ h1 in
      let (files, found, there) = load_path-IsLoaded path one loaded in
      let (files', found', there') = load_paths-locate_all paths rest later in
      (
        files ++ files',
        rw (found, found') refl,
        traverse-append load files files' one rest there there' ∙ same,
      )

-- What a server has under `j` in the end: the given host and short name, or the name of the server and its
-- first label, and any other property as it was.
abbrev pub with_default : Value → Value → Value
with_default given v = if is_nullish given then v else given

abbrev pub expected : String → String → Fields → Value
expected j k fs =
    if "host" == j
    then with_default (get "host" fs) (str k)
    else if "shortname" == j
    then with_default (get "shortname" fs) (str (first_label k))
    else get j fs

abbrev pub IsNamed : String → String → Value → Value → Type 0
IsNamed j k (obj fs) w = (gs : Fields) × (w ≡ obj gs) × (get j gs ≡ expected j k fs)
IsNamed j k (arr vs) w = w ≡ arr vs
IsNamed j k (func f) w = w ≡ func f
IsNamed j k v w = ⊥

abbrev pub AreNamed : String → Fields → Fields → Type 0
AreNamed j end end = Unit
AreNamed j (field k v fs) (field k' w gs) = (k ≡ k') × IsNamed j k v w × AreNamed j fs gs
AreNamed j end (field k' w gs) = ⊥
AreNamed j (field k v fs) end = ⊥

default_property-get :
    (k : String) (v : Value) (fs : Fields)
    → get k (default_property k v fs) ≡ with_default (get k fs) v
unfolding default_property
default_property-get k v fs = elim (Bool-cases (is_nullish (get k fs))) [
  | inl missing ↦ rw missing (get-put_self k v fs)
  | inr given ↦ rw given refl
]

default_property-get_ne :
    (k j : String) (v : Value) (fs : Fields)
    → (k == j) ≡ false
    → get j (default_property k v fs) ≡ get j fs
unfolding default_property
default_property-get_ne k j v fs other = elim (Bool-cases (is_nullish (get k fs))) [
  | inl missing ↦ rw missing (get-put_ne k j v fs other)
  | inr given ↦ rw given refl
]

default_property-given :
    (k : String) (v : Value) (fs : Fields)
    → is_nullish (get k fs) ≡ false
    → default_property k v fs ≡ fs
unfolding default_property
default_property-given k v fs h = rw h refl

with_default-given :
    (given v : Value) → is_nullish v ≡ false → is_nullish (with_default given v) ≡ false
with_default-given given v h = elim (Bool-cases (is_nullish given)) [
  | inl missing ↦ rw missing h
  | inr there ↦ rw (there, with_default) there
]

-- The properties of a server, as the loop leaves them.
abbrev defaults : String → Fields → Fields
defaults k fs =
    default_property "shortname" (str (first_label k)) (default_property "host" (str k) fs)

defaults-host :
    (k : String) (fs : Fields) → get "host" (defaults k fs) ≡ with_default (get "host" fs) (str k)
defaults-host k fs =
    default_property-get_ne "shortname" "host" (str (first_label k))
      (default_property "host" (str k) fs) refl
    ∙ default_property-get "host" (str k) fs

defaults-shortname :
    (k : String) (fs : Fields)
    → get "shortname" (defaults k fs) ≡ with_default (get "shortname" fs) (str (first_label k))
defaults-shortname k fs =
    default_property-get "shortname" (str (first_label k)) (default_property "host" (str k) fs)
    ∙ ap (λ given. with_default given (str (first_label k)))
        (default_property-get_ne "host" "shortname" (str k) fs refl)

defaults-expected : (j k : String) (fs : Fields) → get j (defaults k fs) ≡ expected j k fs
defaults-expected j k fs = elim (Bool-cases ("host" == j)) [
  | inl host ↦ rw (host, ← (eq_iff "host" j).0 host) (defaults-host k fs)
  | inr other ↦ elim (Bool-cases ("shortname" == j)) [
    | inl shortname ↦
        rw (other, shortname, ← (eq_iff "shortname" j).0 shortname) (defaults-shortname k fs)
    | inr another ↦
        rw (other, another)
          (default_property-get_ne "shortname" j (str (first_label k))
              (default_property "host" (str k) fs) another
            ∙ default_property-get_ne "host" j (str k) fs other)
  ]
]

defaults-again : (k : String) (fs : Fields) → defaults k (defaults k fs) ≡ defaults k fs
defaults-again k fs =
    let named = defaults k fs in
    ap (default_property "shortname" (str (first_label k))) (
      default_property-given "host" (str k) named
        (ap is_nullish (defaults-host k fs) ∙ with_default-given (get "host" fs) (str k) refl))
    ∙ default_property-given "shortname" (str (first_label k)) named (
        ap is_nullish (defaults-shortname k fs)
        ∙ with_default-given (get "shortname" fs) (str (first_label k)) refl)

server_defaults-IsNamed :
    (j k : String) (v w : Value)
    → server_defaults k v ≡ ok w
    → IsNamed j k v w × (server_defaults k w ≡ ok w)
unfolding server_defaults
server_defaults-IsNamed j k (obj fs) w h =
    subst (λ x. IsNamed j k (obj fs) x × (server_defaults k x ≡ ok x)) (ok-injective h)
      (
        (defaults k fs, refl, defaults-expected j k fs),
        ap (λ gs. ok (obj gs)) (defaults-again k fs),
      )
server_defaults-IsNamed j k (arr vs) w h =
    subst (λ x. IsNamed j k (arr vs) x × (server_defaults k x ≡ ok x)) (ok-injective h) (refl, refl)
server_defaults-IsNamed j k (func f) w h =
    subst (λ x. IsNamed j k (func f) x × (server_defaults k x ≡ ok x)) (ok-injective h) (refl, refl)
server_defaults-IsNamed j k undefined w h = absurd (cc h)
server_defaults-IsNamed j k null w h = absurd (cc h)
server_defaults-IsNamed j k (bool b) w h = absurd (cc h)
server_defaults-IsNamed j k (num n) w h = absurd (cc h)
server_defaults-IsNamed j k (str s) w h = absurd (cc h)

-- If the servers get their defaults, they are the same servers in the same order, none of them a value
-- without properties. One that is an object has the host and the short name that were given to it,
-- unless they were missing or `null`, and then its own name and the first label of that; its other
-- properties are as before. A second round changes nothing.
pub default_servers-AreNamed :
    (j : String) (servers named : Fields)
    → default_servers servers ≡ ok named
    → AreNamed j servers named × (default_servers named ≡ ok named)
unfolding default_servers
default_servers-AreNamed j end named h =
    subst (λ x. AreNamed j end x × (default_servers x ≡ ok x)) (ok-injective h) (tt, refl)
default_servers-AreNamed j (field k v fs) named h =
    let (w, own, h1) = >>=-eq-ok (server_defaults k v) _ h in
    let (rest, others, same) = >>=-eq-ok (default_servers fs) _ h1 in
    let (is_named, stays) = server_defaults-IsNamed j k v w own in
    let (are_named, stay) = default_servers-AreNamed j fs rest others in
    subst (λ x. AreNamed j (field k v fs) x × (default_servers x ≡ ok x)) (ok-injective same)
      ((refl, is_named, are_named), rw (stays, stay) refl)

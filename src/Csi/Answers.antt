-- ===== src/Csi/Answers.antt =====
-- What the loop of Mount over the requested elements hands out.
use csi_secret_age.Prelude.{
  ℕ, Text, List, [], ◌∷◌, ◌≡◌, refl, Bool, true, false, arith, Option, none, some, ok, codes, inl,
  inr, Bool-cases, Option-cases, >>=-eq-ok, ◌>>=◌,
}
use csi_secret_age.Prelude.Maps.{lookup}
use csi_secret_age.Strings.{contains, has_prefix}
use csi_secret_age.Strings.Splits.{Lacks}
use csi_secret_age.Paths.{slash}
use csi_secret_age.Tree.{VaultNode, VaultTree, entries}
use csi_secret_age.Csi.{File, parse_request, bad_file_name, mount_node, mount_one, mount_loop}

-- A file name that stays in the directory of the mount: no slash, no backslash, no leading dot.
pub record IsPlain (name : Text) : Type 0 where
  pub no_slash : Lacks slash name
  pub no_backslash : Lacks b'\\' name
  pub no_dot : has_prefix name (codes ".") ≡ false

contains-Lacks : (s : Text) (c : ℕ) → contains s c ≡ false → Lacks c s
contains-Lacks [] c h = tt
contains-Lacks (d ∷ s) c h = ground (arith, contains-Lacks s c)

module _ (allowed : Text → Bool) (t : VaultTree) where
  -- The answer to one request: an allowed node of the tree, under a plain name.
  pub record Serves (name path : Text) (file : File) : Type 0 where
    pub node : VaultNode
    pub held : lookup path (entries t) ≡ some node
    pub granted : allowed path ≡ true
    pub named : file.path ≡ name
    pub contents : file.contents ≡ node.value
    pub plain : IsPlain name

  -- The answers to the requests, in their order; an element that asks for nothing is passed over.
  pub data ServesAll : List Text → List File → Type 0 where
    done : ServesAll [] []
    skipped :
        {request : Text} {requests : List Text} {files : List File}
        → parse_request request ≡ none
        → ServesAll requests files
        → ServesAll (request ∷ requests) files
    served :
        {request : Text} {requests : List Text} {file : File} {files : List File} (name path : Text)
        → parse_request request ≡ some (name, path)
        → Serves name path file
        → ServesAll requests files
        → ServesAll (request ∷ requests) (file ∷ files)

  IsPlain-of_good : (name : Text) → bad_file_name name ≡ false → IsPlain name
  unfolding bad_file_name
  IsPlain-of_good name h = record {
    no_slash = contains-Lacks name slash (ground arith);
    no_backslash = contains-Lacks name b'\\' (ground arith);
    no_dot = ground arith;
  }

  served_node :
      (name path : Text) (file : File)
      → bad_file_name name ≡ false
      → (b : Bool) (o : Option VaultNode) → allowed path ≡ b
      → lookup path (entries t) ≡ o
      → mount_node name path b o ≡ ok file
      → Serves name path file
  unfolding mount_node
  served_node name path file good b none granted held h = cc
  served_node name path file good false (some node) granted held h = cc
  served_node name path file good true (some node) granted held h = record {
    node = node;
    held = held;
    granted = granted;
    named = ground arith;
    contents = ground arith;
    plain = IsPlain-of_good name good;
  }

  mount_one-Serves :
      (name path : Text) (file : File)
      → mount_one allowed t name path ≡ ok file
      → Serves name path file
  unfolding mount_one
  mount_one-Serves name path file h = elim (Bool-cases (bad_file_name name)) [
    | inl bad ↦ absurd (ground arith)
    | inr good ↦ served_node name path file good _ _ refl refl (rw (good, mount_one) at h)
  ]

  pub mount_loop-ServesAll :
      (requests : List Text) (files : List File)
      → mount_loop allowed t requests ≡ ok files
      → ServesAll requests files
  unfolding mount_loop
  mount_loop-ServesAll [] files h = let e : files ≡ [] = ground arith in rw e done
  mount_loop-ServesAll (request ∷ requests) files h = elim (Option-cases (parse_request request)) [
    | inl nothing ↦
        skipped nothing (mount_loop-ServesAll requests files (rw (nothing, mount_loop) at h))
    | inr ((name, path), parsed) ↦
        let run : (mount_one allowed t name path >>= λ file.
        mount_loop allowed t requests >>= λ more. ok (file ∷ more))
            ≡ ok files =
          rw (parsed, mount_loop) at h in
        let (file, here, later) = >>=-eq-ok (mount_one allowed t name path) _ run in
        let (more, rest, last) = >>=-eq-ok (mount_loop allowed t requests) _ later in
        let same : files ≡ file ∷ more = ground arith in
        rw same (
          served name path parsed (mount_one-Serves name path file here)
            (mount_loop-ServesAll requests more rest))
  ]

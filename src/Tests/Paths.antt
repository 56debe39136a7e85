-- ===== src/Tests/Paths.antt =====
-- Runs of the path functions.
use csi_secret_age.Prelude.{◌≡◌, ◌↔◌, refl, codes, ok, err, ◌==◌}
use csi_secret_age.Paths.{
  clean, base, dir, join_path, validate_vault_path, not_canonical, control_character, path_required,
}
use csi_secret_age.Paths.Validity.{IsCanonical, validate_vault_path_iff}

clean_climbs : clean (codes "/a/../../etc//./passwd/") ≡ codes "/etc/passwd"
unfolding clean
clean_climbs = refl

clean_relative : clean (codes "../a/./b/..") ≡ codes "../a"
unfolding clean
clean_relative = refl

clean_nothing : clean (codes "a/..") ≡ codes "."
unfolding clean
clean_nothing = refl

base_of : base (codes "/db/password//") ≡ codes "password"
unfolding base ◌==◌
base_of = refl

base_root : base (codes "//") ≡ codes "/"
unfolding base ◌==◌
base_root = refl

dir_of : dir (codes "/db/password") ≡ codes "/db"
unfolding dir
dir_of = refl

dir_top : dir (codes "/db") ≡ codes "/"
unfolding dir
dir_top = refl

join_of : join_path (codes "/db") (codes "x") ≡ codes "/db/x"
unfolding join_path
join_of = refl

refuses_dots : validate_vault_path (codes "/db/../x") ≡ err not_canonical
unfolding validate_vault_path
refuses_dots = refl

refuses_control : validate_vault_path (codes "/db\n") ≡ err control_character
unfolding validate_vault_path
refuses_control = refl

refuses_root : validate_vault_path (codes "/") ≡ err path_required
unfolding validate_vault_path
refuses_root = refl

validate_vault_path_iff_example :
    (validate_vault_path (codes "/db/x") ≡ ok tt) ↔ IsCanonical (codes "/db/x")
validate_vault_path_iff_example = validate_vault_path_iff (codes "db/x")

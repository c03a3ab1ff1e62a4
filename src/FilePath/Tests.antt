-- ===== src/FilePath/Tests.antt =====
-- Runs of the functions of package path/filepath.
use claude_cowork_service.Base.{[], codes, refl, ◌∷◌, ◌≡◌}
use claude_cowork_service.FilePath.{base, clean, dir, join}

base_of_file : base (codes "/srv/bundles/alpha/") ≡ codes "alpha"
unfolding base
base_of_file = refl

dir_of_file : dir (codes "/srv//bundles/./alpha") ≡ codes "/srv/bundles"
unfolding dir
dir_of_file = refl

clean_dots : clean (codes "/a/../../b/./c//") ≡ codes "/b/c"
unfolding clean
clean_dots = refl

clean_relative : clean (codes "../x/../../y") ≡ codes "../../y"
unfolding clean
clean_relative = refl

join_home : join (codes "/home/u" ∷ (codes "" ∷ (codes "../v" ∷ []))) ≡ codes "/home/v"
unfolding join
join_home = refl

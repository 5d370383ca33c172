-- ===== src/Examples/Listings.antt =====
-- internal/packagemgr/chocolatey.go and homebrew.go: listings of packages, and a machine without
-- any program.
use castle_ops_client.Prelude.{◌≡◌, refl, false, none, some, [], ◌∷◌, map, plain}
use castle_ops_client.Packages.Listing.{
  choco_package, parse_choco_list, brew_package, parse_brew_list,
}
use castle_ops_client.Packages.Listing.RoundTrip.{printed, parse_choco_list-printed}
use castle_ops_client.Packages.Shell.{Shell}
use castle_ops_client.Packages.Queries.{default_registry}
use castle_ops_client.Packages.Laws.{AllLawful}
use castle_ops_client.Packages.Platforms.{default_registry-Lawful}

parse_choco_list-printed_example :
    parse_choco_list (printed (("git", "2.40.0") ∷ ("nodejs", "18.16.0") ∷ []))
    ≡ map choco_package (("git", "2.40.0") ∷ ("nodejs", "18.16.0") ∷ [])
parse_choco_list-printed_example =
    parse_choco_list-printed (("git", "2.40.0") ∷ ("nodejs", "18.16.0") ∷ [])
      (((refl, refl), (refl, refl)), (((refl, refl), (refl, refl)), tt)) (refl, (refl, tt))

-- The summary is left out, and brew's second version too.
reads_choco :
    parse_choco_list "git 2.40.0\n1 packages installed.\n" ≡ choco_package ("git", "2.40.0") ∷ []
unfolding parse_choco_list
reads_choco = refl

reads_brew : parse_brew_list "jq 1.6 1.5\n" ≡ brew_package ("jq", "1.6") ∷ []
unfolding parse_brew_list
reads_brew = refl

-- The line that choco prints first is taken for a package.
takes_the_header :
    parse_choco_list "Chocolatey v1.2.3\n" ≡ choco_package ("Chocolatey", "v1.2.3") ∷ []
unfolding parse_choco_list
takes_the_header = refl

-- A machine on which no program can be run.
abbrev bare : Shell (Unit {0})
bare = record {
  os = "windows";
  run = λ program args s. (
    record {
      stdout = "";
      stderr = "";
      combined = "";
      failure = some (plain "executable file not found");
      exit_code = none;
      timed_out = false;
    },
    s,
  );
  exists = λ path s. false;
  read_dir = λ dir name s. [];
}

default_registry-Lawful_example : AllLawful (default_registry bare (λ options. options))
default_registry-Lawful_example = default_registry-Lawful bare (λ options. options)

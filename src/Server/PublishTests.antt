-- ===== src/Server/PublishTests.antt =====
-- Runs of publishing, crates/ucrs-server/src/api.rs, with a witness for each theorem.
use ucrashreport_server.Accounts.{device_from_bearer, token_device, token_hash_of}
use ucrashreport_server.Base.{Option, [], refl, some, true, ◌∷◌, ◌≡◌, ◌⊎◌}
use ucrashreport_server.Base.Results.{err, ok}
use ucrashreport_server.Server.Login.{new_token, require_device}
use ucrashreport_server.Server.Monad.{ApiError, World, not_found, unauthorized}
use ucrashreport_server.Server.Owners.{IsChanged, my_set_visibility-IsChanged}
use ucrashreport_server.Server.Post.{report_row}
use ucrashreport_server.Server.Publish.{
  Published, change_own, change_visibility, my_set_visibility, owned_report, published_answer,
  set_visibility, slug_of, store_reports, visibility_of, write_visibility,
}
use ucrashreport_server.Server.Republish.{my_set_visibility-again}
use ucrashreport_server.Server.Samples.{posted_world, samples}
use ucrashreport_server.Server.Visibility.{with_visibility}
use ucrashreport_server.Text.{Text, codes, text_runs}

unfoldable publish_runs : Unit {0}
unfolding my_set_visibility owned_report require_device device_from_bearer token_device
    token_hash_of change_own set_visibility visibility_of change_visibility slug_of write_visibility
    store_reports text_runs report_row
publish_runs = tt

abbrev owner_world : World
owner_world = record posted_world {
  db = record posted_world.db { device_tokens = new_token samples (codes "t") 50 (codes "d") ∷ [] };
}

abbrev bearer : Option Text
bearer = some (codes "Bearer t")

abbrev public_world : World
public_world = with_visibility (codes "r") true (some (codes "0123456789abcdef")) owner_world

abbrev public_answer : Published
public_answer = published_answer samples true (some (codes "0123456789abcdef"))

published :
    my_set_visibility samples (codes "0123456789abcdef0") 60 bearer (codes "r") true owner_world
    ≡ (ok public_answer, public_world)
unfolding publish_runs
published = refl

not_owned :
    my_set_visibility samples (codes "0") 60 bearer (codes "q") true owner_world
    ≡ (err (not_found (codes "no such report")), owner_world)
unfolding publish_runs
not_owned = refl

expired :
    my_set_visibility samples (codes "0") 3650 bearer (codes "r") true owner_world
    ≡ (err (unauthorized (codes "missing or invalid token")), owner_world)
unfolding publish_runs
expired = refl

my_set_visibility-IsChanged_example :
    IsChanged samples
      (codes "0")
      60
      bearer
      (codes "r")
      true
      (my_set_visibility samples (codes "0") 60 bearer (codes "r") true owner_world).0
      owner_world
      (my_set_visibility samples (codes "0") 60 bearer (codes "r") true owner_world).1
    ⊎ ((e : ApiError) × (my_set_visibility samples
            (codes "0")
            60
            bearer
            (codes "r")
            true
            owner_world
          ≡ (err e, owner_world)))
my_set_visibility-IsChanged_example =
    my_set_visibility-IsChanged samples (codes "0") 60 bearer (codes "r") true owner_world

still_valid :
    device_from_bearer samples.secrets 70 owner_world.db bearer
    ≡ device_from_bearer samples.secrets 60 owner_world.db bearer
unfolding publish_runs
still_valid = refl

my_set_visibility-again_example :
    (w : World) × (my_set_visibility samples
        (codes "another")
        70
        bearer
        (codes "r")
        true
        public_world
      ≡ (ok public_answer, w))
my_set_visibility-again_example =
    my_set_visibility-again samples (codes "0123456789abcdef0") (codes "another") 60 70 bearer
      (codes "r") owner_world public_world public_answer published still_valid

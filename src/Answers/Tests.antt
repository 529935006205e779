-- ===== src/Answers/Tests.antt =====
-- The theorem on `api.config` at a concrete input.
use erase_to.Prelude.{ℕ, ◌≡◌, ◌↔◌, refl, codes}
use erase_to.Types.{ok, err, invalid_response}
use erase_to.Json.{Json, number, object, no_more, member}
use erase_to.Answers.{integer, members_of, PublicConfig, read_config}
use erase_to.Answers.Accepted.{DescribesService, read_config_iff}
use erase_to.Answers.Packages.{DescribesPackage, read_metadata_iff}
use erase_to.Answers.{string, Metadata, read_metadata}

abbrev answer_with : ℕ → Json
answer_with ttl = object (
    member (codes "protocol") (number 1) (
      member (codes "max_content_bytes") (number 67108864) (
        member (codes "max_text_bytes") (number 8388608) (
          member (codes "max_files") (number 8) (
            member (codes "max_views") (number 100) (
              member (codes "max_ttl") (number ttl)
                (member (codes "pow_bits") (number 20) no_more)))))))

abbrev config : PublicConfig
config = record {
  max_content_bytes = 67108864;
  max_text_bytes = 8388608;
  max_files = 8;
  max_views = 100;
  max_ttl = 86400;
  pow_bits = 20;
}

accepted : read_config (answer_with 86400) ≡ ok config
unfolding read_config members_of integer
accepted = refl

-- A lifetime beyond the client's limit is refused.
refused : read_config (answer_with 604801) ≡ err invalid_response
unfolding read_config members_of integer
refused = refl

read_config_iff_example :
    (read_config (answer_with 86400) ≡ ok config) ↔ DescribesService (answer_with 86400) config
read_config_iff_example = read_config_iff (answer_with 86400) config

abbrev package_answer : Json
package_answer = object (
    member (codes "header") (string (codes "eyJ2")) (
      member (codes "expires_at") (number 1900000000)
        (member (codes "remaining") (number 1) no_more)))

abbrev package_metadata : Metadata
package_metadata = record { header = codes "eyJ2"; expires_at = 1900000000; remaining = 1 }

read_metadata_iff_example :
    (read_metadata package_answer ≡ ok package_metadata)
    ↔ DescribesPackage package_answer package_metadata
read_metadata_iff_example = read_metadata_iff package_answer package_metadata

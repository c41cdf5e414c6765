-- ===== src/Uploads/Create/Tests.antt =====
-- The creation of an upload, and an instance of the theorem.
use folioharbor.Prelude.{refl, some, true, ℕ, ◌↔◌, ◌≡◌}
use folioharbor.Prelude.Result.{Result, ok}
use folioharbor.Text.Chars.{codes, to_ascii_lowercase}
use folioharbor.Domain.Codes.{RoleCode}
use folioharbor.Access.{
  AuthorizationGrant, Resolve, create_upload, decide_fact, library_of, library_ref, require,
}
use folioharbor.Uploads.Create.{
  CreateUploadRecord, CreateUploadRequest, UploadRepositoryError, create, declared_size, record_of,
}
use folioharbor.Uploads.Create.Laws.{IsAcceptable, create_iff, created_record}

abbrev resolve : Resolve
resolve actor action resource = some (
    some (record {
      library_id = 7;
      role = RoleCode.editor;
      membership_version = 1;
      discoverable = true;
      permitted = true;
    }))

abbrev wanted : CreateUploadRequest
wanted = record {
  actor = 1;
  request_id = 9;
  library_id = 7;
  file_name = codes "Book.EPUB";
  media_type = codes "application/epub+zip";
  declared_bytes = 100;
}

abbrev repository : CreateUploadRecord → Result ℕ UploadRepositoryError
repository created = ok created.upload_id

creates : create resolve repository 1_000 3 5 wanted ≡ ok 3
unfolding create declared_size require decide_fact library_of record_of to_ascii_lowercase
creates = refl

create_iff_example :
    (create resolve repository 1_000 3 5 wanted ≡ ok 3)
    ↔ IsAcceptable 1_000 wanted
      × (grant : AuthorizationGrant) × (require resolve 1 create_upload (library_ref 7) ≡ ok grant)
      × (repository (created_record wanted 3 5) ≡ ok 3)
create_iff_example = create_iff resolve repository 1_000 3 5 wanted 3

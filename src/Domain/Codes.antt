-- ===== src/Domain/Codes.antt =====
-- The codes of the closed sets that the database and the API name by text: the roles and permissions
-- of crates/domain/src/libraries/role.rs, and the jobs of crates/domain/src/imports/job.rs.
use folioharbor.Prelude.{Option, arith, if◌then◌else◌, none, refl, some, ◌↔◌, ◌≡◌}
use folioharbor.Text.Chars.{Text, codes, text_eq, text_eq-eq}

pub data RoleCode : Type 0 where
  owner editor reader : RoleCode

unfoldable pub parse_role : Text → Option RoleCode
parse_role value =
    if text_eq value (codes "owner")
    then some owner
    else if text_eq value (codes "editor")
    then some editor
    else if text_eq value (codes "reader")
    then some reader
    else none

unfoldable pub role_as_str : RoleCode → Text
role_as_str owner = codes "owner"
role_as_str editor = codes "editor"
role_as_str reader = codes "reader"

pub data PermissionCode : Type 0 where
  library_manage member_invite holding_view holding_edit item_read item_download : PermissionCode

unfoldable pub permission_as_str : PermissionCode → Text
permission_as_str library_manage = codes "library.manage"
permission_as_str member_invite = codes "member.invite"
permission_as_str holding_view = codes "holding.view"
permission_as_str holding_edit = codes "holding.edit"
permission_as_str item_read = codes "item.read"
permission_as_str item_download = codes "item.download"

pub data JobKind : Type 0 where
  import_epub expire_uploads_and_reservations purge_failed_uploads collect_blobs_later : JobKind

unfoldable pub job_as_str : JobKind → Text
job_as_str import_epub = codes "import_epub"
job_as_str expire_uploads_and_reservations = codes "expire_uploads_and_reservations"
job_as_str purge_failed_uploads = codes "purge_failed_uploads"
job_as_str collect_blobs_later = codes "collect_blobs_later"

unfoldable pub parse_job : Text → Option JobKind
parse_job value =
    if text_eq value (codes "import_epub")
    then some import_epub
    else if text_eq value (codes "expire_uploads_and_reservations")
    then some expire_uploads_and_reservations
    else if text_eq value (codes "purge_failed_uploads")
    then some purge_failed_uploads
    else if text_eq value (codes "collect_blobs_later")
    then some collect_blobs_later
    else none

parse_role-eq :
    (value : Text) (role : RoleCode) → parse_role value ≡ some role → value ≡ role_as_str role
unfolding parse_role role_as_str
parse_role-eq value role e = ground (
  arith,
  text_eq-eq value (codes "owner"),
  text_eq-eq value (codes "editor"),
  text_eq-eq value (codes "reader"),
)

parse_role_as_str : (role : RoleCode) → parse_role (role_as_str role) ≡ some role
unfolding parse_role role_as_str
parse_role_as_str owner = refl
parse_role_as_str _ = refl

-- A text is read as a role exactly when it is the role's code, and nothing else is.
pub parse_role_iff :
    (value : Text) (role : RoleCode) → (parse_role value ≡ some role) ↔ (value ≡ role_as_str role)
parse_role_iff value role = (parse_role-eq value role, λ e. rw e (parse_role_as_str role))

parse_job-eq :
    (value : Text) (kind : JobKind) → parse_job value ≡ some kind → value ≡ job_as_str kind
unfolding parse_job job_as_str
parse_job-eq value kind e = ground (
  arith,
  text_eq-eq value (codes "import_epub"),
  text_eq-eq value (codes "expire_uploads_and_reservations"),
  text_eq-eq value (codes "purge_failed_uploads"),
  text_eq-eq value (codes "collect_blobs_later"),
)

parse_job_as_str : (kind : JobKind) → parse_job (job_as_str kind) ≡ some kind
unfolding parse_job job_as_str
parse_job_as_str import_epub = refl
parse_job_as_str _ = refl

-- A text is read as a kind of job exactly when it is the kind's code.
pub parse_job_iff :
    (value : Text) (kind : JobKind) → (parse_job value ≡ some kind) ↔ (value ≡ job_as_str kind)
parse_job_iff value kind = (parse_job-eq value kind, λ e. rw e (parse_job_as_str kind))

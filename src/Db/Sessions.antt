-- ===== src/Db/Sessions.antt =====
-- crates/db/src/repository.rs: `create_session`. That the connection's id is a UUID holds for every id
-- that the server makes, and is not tested.
use imapped_lightmode.Base.{[], ◌∷◌, ◌++◌, if◌then◌else◌, any, ok, err}
use imapped_lightmode.Text.{eq}
use imapped_lightmode.Domain.Records.{SessionRecord}
use imapped_lightmode.Db.{Transaction, unique_violation}

-- The index on `connection_id` is unique.
unfoldable pub create_session : SessionRecord → Transaction SessionRecord
create_session input db =
    if any (λ other. eq other.connection_id input.connection_id) db.sessions
    then err unique_violation
    else ok (input, record db { sessions = db.sessions ++ input ∷ [] })

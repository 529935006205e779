-- ===== src/Reader/Late.antt =====
-- web/src/lib/controllers.ts: answers that come after the object was cleared.
use erase_to.Session.{Session}
use erase_to.Reader.{Reader}
use erase_to.Session.Tickets.{clearings}
use erase_to.Session.{clear as clear_session}
use erase_to.Reader.{clear}
use erase_to.Session.Tickets.{clearings}
use erase_to.Session.{clear as clear_session}

-- ===== src/Drive/Handle.antt =====
-- `DriveTwinService::handle`.
use agent_sandbox.Common.{ℕ, pure}
use agent_sandbox.Drive.Types.{DriveRequest, DriveResponse, service_ok, Drive}
use agent_sandbox.Drive.Create
use agent_sandbox.Drive.Read
use agent_sandbox.Drive.Change
use agent_sandbox.Drive.Delete

-- The fuel is for the loop of `delete_item`.
unfoldable pub handle : ℕ → DriveRequest → Drive DriveResponse
handle fuel DriveRequest.health = pure (service_ok "google-drive-twin")
handle fuel (DriveRequest.create_folder actor parent name) = Create.create_folder actor parent name
handle fuel (DriveRequest.create_file actor parent name) = Create.create_file actor parent name
handle fuel (DriveRequest.list_children actor parent) = Read.list_children actor parent
handle fuel (DriveRequest.set_permission actor item target role) =
    Change.set_permission actor item target role
handle fuel (DriveRequest.move_item actor item parent) = Change.move_item actor item parent
handle fuel (DriveRequest.get_item actor item) = Read.get_item actor item
handle fuel (DriveRequest.delete_item actor item) = Delete.delete_item fuel actor item
handle fuel (DriveRequest.update_item actor item name parent) =
    Change.update_item actor item name parent
handle fuel (DriveRequest.upload_content actor parent name mime content properties) =
    Create.upload_content actor parent name mime content properties
handle fuel (DriveRequest.download_content actor item) = Read.download_content actor item

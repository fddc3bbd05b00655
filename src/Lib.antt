-- ===== src/Lib.antt =====
-- Trolley: a catalog of databases and of SQL operations on them, offered as tools to the agents of
-- its users.
--
-- The server (src/trolley/mcp) takes a call of a tool with a bearer token. The verifier turns the
-- token into a user, a key and scopes; the tool pipeline checks the scope and the arguments; the
-- application modules (src/trolley/application) check that a group of the user leads to the target
-- and read or write the catalog; the connectors (src/trolley/connectors) run SQL on the target under
-- the limits of its configuration, page by page.
--
-- Which file models what, with the paths of the repository:
-- Base and its children: lists, text, integers, JSON values and exceptions of Python.
-- Catalog: the tables of src/trolley/persistence/models.py with the enumerations of
--   src/trolley/domain and src/trolley/auth/enums.py. A table is the list of its rows. Catalog.Monad
--   has the calls that read and write the catalog and may raise, and the transaction.
-- Access: src/trolley/application/target_access.py and src/trolley/application/access.py.
-- Auth: src/trolley/auth/api_keys.py and src/trolley/mcp/token_verifier.py.
-- Tools: src/trolley/mcp/constants.py, src/trolley/mcp/pipeline.py and the listing of tools in
--   src/trolley/mcp/server.py.
-- Pagination: src/trolley/application/pagination.py.
-- Sql: src/trolley/connectors/sql.py, a lexer over code points.
-- Fetch: the loop over the rows of a query in src/trolley/connectors/database.py.
-- Notes: src/trolley/application/target_notes.py.
-- Limits: src/trolley/connectors/limits.py.
-- Targets: src/trolley/targets.py and the synchronisation of src/trolley/application/targets.py.
-- Groups: src/trolley/application/groups.py and src/trolley/auth/roles.py.
-- Users: src/trolley/application/users.py.
-- Executions: src/trolley/application/execution.py and src/trolley/application/execution_status.py.
-- Exports: src/trolley/application/exports.py, with the steps of its life in Exports.Steps.
-- Queries: src/trolley/application/queries.py.
-- Operations: src/trolley/application/operations.py and the checks of names and input schemas of
--   src/trolley/validation/operations.py.
-- Caller: src/trolley/validation/caller.py, src/trolley/validation/caller_usage.py and
--   src/trolley/validation/ownership.py, with the queries of rows and of aggregates (Caller.Query,
--   Caller.Aggregate) whose text the compiled SQL is.
-- Definitions: `validate_definition` of src/trolley/validation/operations.py.
-- Database: `execute` of src/trolley/connectors/database.py.
-- Registry: src/trolley/mcp/registry.py, and src/trolley/mcp/schema.py in Registry.Signature. The tools
--   of the MCP server are an interface with laws (ToolServer), and a method gives the registry that it
--   leaves also where it raises.
-- Server: of src/trolley/mcp/server.py, the wrapper of the system tools and the tools that publish,
--   change and disable operations, on the catalog and the registry together, and `get_my_capabilities`.
-- Downloads: the route of src/trolley/main.py that sends the file of an export.
-- Views: src/trolley/application/presenters.py and `list_operations`.
-- Writer: src/trolley/connectors/export.py; a file is the list of its lines.
-- Provisioning: `provision` of src/trolley/provisioning.py.
--
-- A call of the ORM is read as the query that it names, over lists. A call of one task is one step:
-- two tasks interleave only between such calls, and where a transaction stands in the source the whole
-- block is one step that is taken back when it raises. A fresh UUID is the counter `next_id`, which
-- every creation raises. The unique columns that the code relies on are tested where it writes them.
--
-- Parameters: the digest of a secret and of a query, UUIDs as text, Python's floats, the test
-- `isalnum`, `str.lower`, the identifiers of Python, JSON Schema, the driver of the database, the table
-- of the MCP server's tools, the delivery of a mail, the conversion of a record to a row and
-- the size of a row's JSON text, the line and the compression of an exported row, and the time.
--
-- Fuel: the lexer of Sql runs on the length of the text and one more, since every token takes at
-- least one code point. A client that follows page cursors (Fetch.Walk) takes one page for each row
-- and one more at most, since a page that announces more is not empty.
--
-- Not modelled: the command line and the start of the server, e-mail and invitations, the wizard
-- (input, output and wiring); the checks of the configuration, the route of the provisioning and the
-- inspection of a schema.
-- Executions.Services and Operations.Rules stand for the compilation, the validation and the connector
-- where the operations use them, so that what is shown of the operations holds for any of them; Caller,
-- Definitions and Database are what they are in the server.
pub mod Base
pub mod Catalog
pub mod Access
pub mod Auth
pub mod Tools
pub mod Pagination
pub mod Sql
pub mod Fetch
pub mod Notes
pub mod Limits
pub mod Targets
pub mod Groups
pub mod Users
pub mod Executions
pub mod Exports
pub mod Queries
pub mod Operations
pub mod Provisioning
pub mod Caller
pub mod Definitions
pub mod Database
pub mod Registry
pub mod Server
pub mod Downloads
pub mod Views
pub mod Writer
